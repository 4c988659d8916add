-- ===== src/Broadcast/Outcome/Retries.antt =====
-- What `plan_outcome` of src/functions/broadcast_worker.py plans after an answer: an end, or another
-- try after a delay.
use vakant.Prelude.{
  ℕ, zero, suc, ◌+◌, ◌^◌, ◌≡◌, ◌≤◌, ◌<◌, refl, Bool, true, false, ◌&&◌, Option, none, some, arith,
  ltb, Bool-cases, if◌then◌else◌, inl, inr, ◌⊎◌, take,
}
use native.Mathlib.Numerals.{unary_clauses}
use vakant.Prelude.Text.{Text, codes}
use vakant.Broadcast.{
  is_pending, is_sent, is_failed, is_blocked, ErrorKind, kind_blocked, deactivated, chat_not_found,
  bad_request, flood, network, other, sent_unparsed,
}
use vakant.Broadcast.Outcome.{
  SendError, retry_after, forbidden, entity_too_large, server_error, network_error, client_decode,
  client_error, timeout, connection_error, telegram_bad_request, telegram_not_found, unknown_error,
  classify_error, delivered_but_unparsed, is_retry_after, occurs, seconds_asked,
  max_retry_after_seconds, error_text_limit, is_transient, is_unreachable, max_attempts,
  backoff_seconds, Sending, delivered, delivered_unparsed, error_of, failure_of, sending_of, Plan,
  delay_of, planned_error, plan_outcome,
}

-- An answer is counted as one more attempt, and leaves the row pending only under the limit.
pub plan_outcome_cases :
    (answer : Sending) (attempts now : ℕ)
    → ((plan_outcome answer attempts now).attempts ≡ attempts + 1)
      × (((plan_outcome answer attempts now).status ≡ is_sent)
          ⊎ (((plan_outcome answer attempts now).status ≡ is_failed)
              ⊎ (((plan_outcome answer attempts now).status ≡ is_blocked)
                  ⊎ (((plan_outcome answer attempts now).status ≡ is_pending)
                      × (attempts + 1 < max_attempts)))))
unfolding plan_outcome
plan_outcome_cases (delivered file_id) attempts now = (refl, inl refl)
plan_outcome_cases (delivered_unparsed message) attempts now = (refl, inl refl)
plan_outcome_cases (error_of kind message seconds) attempts now =
    elim (Bool-cases (is_transient kind && ltb (attempts + 1) max_attempts)) [
      | inl again ↦
          let fewer : ltb (attempts + 1) max_attempts ≡ true = ground (arith, again) in
          rw (again, planned_error) (refl, inr (inr (inr (refl, ground (arith, fewer)))))
      | inr over ↦
          rw (over, planned_error)
            (elim (Bool-cases (is_unreachable kind)) [
              | inl gone ↦ rw gone (refl, inr (inr (inl refl)))
              | inr there ↦ rw there (refl, inr (inl refl))
            ])
    ]

pow_pos : (n : ℕ) → 1 ≤ 2 ^ n
pow_pos zero = omega arith
pow_pos (suc n) = simp unary_clauses (omega (arith, pow_pos n))

backoff_seconds_bounds : (n : ℕ) → (10 ≤ backoff_seconds n) × (backoff_seconds n ≤ 600)
unfolding backoff_seconds
backoff_seconds_bounds n = let p = pow_pos n in (omega (arith, p), omega arith)

-- The seconds of an error that is not a flood are none, and those of a flood at most an hour.
abbrev Capped : Option ℕ → Type 0
Capped none = Unit
Capped (some seconds) = seconds ≤ max_retry_after_seconds

classify_error_seconds : (e : SendError) (low : Text) → Capped (classify_error e low).1
unfolding classify_error
classify_error_seconds e low = elim (Bool-cases (delivered_but_unparsed e)) [
  | inl unparsed ↦ rw unparsed tt
  | inr failed ↦ rw failed (elim (Bool-cases (is_retry_after e)) [
    | inl waits ↦ rw waits (asked e)
    | inr not_flood ↦ rw not_flood (elim (Bool-cases (occurs (codes "user is deactivated") low)) [
      | inl gone ↦ rw gone tt
      | inr there ↦ rw there tt
    ])
  ])
]
  where
    asked : (e : SendError) → Capped (seconds_asked e)
    asked (retry_after seconds) = omega arith
    asked forbidden = tt
    asked entity_too_large = tt
    asked server_error = tt
    asked network_error = tt
    asked (client_decode _ _) = tt
    asked client_error = tt
    asked timeout = tt
    asked connection_error = tt
    asked telegram_bad_request = tt
    asked telegram_not_found = tt
    asked unknown_error = tt

delay_of_bounds :
    (kind : ErrorKind) (seconds : Option ℕ) (n : ℕ)
    → Capped seconds
    → (10 ≤ delay_of kind seconds n) × (delay_of kind seconds n ≤ max_retry_after_seconds)
delay_of_bounds flood (some seconds) n capped =
    let (least, most) = backoff_seconds_bounds n in
    (omega (arith, least), omega (arith, most, capped))
delay_of_bounds flood none n capped =
    let (least, most) = backoff_seconds_bounds n in (least, omega (arith, most))
delay_of_bounds kind_blocked seconds n capped =
    let (least, most) = backoff_seconds_bounds n in (least, omega (arith, most))
delay_of_bounds deactivated seconds n capped =
    let (least, most) = backoff_seconds_bounds n in (least, omega (arith, most))
delay_of_bounds chat_not_found seconds n capped =
    let (least, most) = backoff_seconds_bounds n in (least, omega (arith, most))
delay_of_bounds bad_request seconds n capped =
    let (least, most) = backoff_seconds_bounds n in (least, omega (arith, most))
delay_of_bounds network seconds n capped =
    let (least, most) = backoff_seconds_bounds n in (least, omega (arith, most))
delay_of_bounds other seconds n capped =
    let (least, most) = backoff_seconds_bounds n in (least, omega (arith, most))
delay_of_bounds sent_unparsed seconds n capped =
    let (least, most) = backoff_seconds_bounds n in (least, omega (arith, most))

abbrev Again : Plan → ℕ → ℕ → Type 0
Again p attempts now =
    (d : ℕ) × (p.next_attempt_at ≡ some (now + d))
    × (10 ≤ d)
    × (d ≤ max_retry_after_seconds)
    × (attempts + 1 < max_attempts)

planned_error-Again :
    (kind : ErrorKind) (message : Text) (seconds : Option ℕ) (attempts now : ℕ)
    → Capped seconds
    → (planned_error kind message seconds attempts now).status ≡ is_pending
    → Again (planned_error kind message seconds attempts now) attempts now
planned_error-Again kind message seconds attempts now capped h =
    elim (Bool-cases (is_transient kind && ltb (attempts + 1) max_attempts)) [
      | inl again ↦
          let fewer : ltb (attempts + 1) max_attempts ≡ true = ground (arith, again) in
          let (least, most) = delay_of_bounds kind seconds attempts capped in
          rw (again, planned_error)
            (delay_of kind seconds attempts, refl, least, most, ground (arith, fewer))
      | inr over ↦
          let ended : (if is_unreachable kind then is_blocked else is_failed) ≡ is_pending =
            rw (over, planned_error) at h in
          absurd (ends (is_unreachable kind) ended)
    ]
  where
    ends : (gone : Bool) → (if gone then is_blocked else is_failed) ≡ is_pending → ⊥
    ends true e = cc
    ends false e = cc

-- A send that failed and is left pending is tried again after 10 seconds at least and an hour at
-- most, and has used fewer than `MAX_ATTEMPTS`.
pub plan_outcome-failure_of :
    (lowered : Text → Text) (e : SendError) (message : Text) (attempts now : ℕ)
    → (plan_outcome (failure_of lowered e message) attempts now).status ≡ is_pending
    → (d : ℕ) × ((plan_outcome (failure_of lowered e message) attempts now).next_attempt_at
        ≡ some (now + d))
      × (10 ≤ d)
      × (d ≤ max_retry_after_seconds)
      × (attempts + 1 < max_attempts)
unfolding plan_outcome failure_of
plan_outcome-failure_of lowered e message attempts now h =
    let shown = take error_text_limit message in
    let (kind, seconds) = classify_error e (lowered shown) in
    again kind shown seconds (classify_error_seconds e (lowered shown)) h
  where
    again :
        (kind : ErrorKind) (shown : Text) (seconds : Option ℕ)
        → Capped seconds
        → (plan_outcome (sending_of kind shown seconds) attempts now).status ≡ is_pending
        → Again (plan_outcome (sending_of kind shown seconds) attempts now) attempts now
    again sent_unparsed shown seconds capped p = cc
    again kind_blocked shown seconds capped p =
        planned_error-Again kind_blocked shown seconds attempts now capped p
    again deactivated shown seconds capped p =
        planned_error-Again deactivated shown seconds attempts now capped p
    again chat_not_found shown seconds capped p =
        planned_error-Again chat_not_found shown seconds attempts now capped p
    again bad_request shown seconds capped p =
        planned_error-Again bad_request shown seconds attempts now capped p
    again flood shown seconds capped p =
        planned_error-Again flood shown seconds attempts now capped p
    again network shown seconds capped p =
        planned_error-Again network shown seconds attempts now capped p
    again other shown seconds capped p =
        planned_error-Again other shown seconds attempts now capped p
