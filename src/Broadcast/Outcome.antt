-- ===== src/Broadcast/Outcome.antt =====
-- What a send and its answer do to a row: `classify_error`, `backoff_seconds` and `plan_outcome` of
-- src/functions/broadcast_worker.py.
pub mod Retries
use vakant.Prelude.{
  ℕ, zero, suc, ◌+◌, ◌-◌, ◌*◌, ◌^◌, Bool, true, false, not, ◌&&◌, ◌||◌, Option, none, some, List,
  [], ◌∷◌, ltb, ◌==◌, any, take, if◌then◌else◌, min, max,
}
use vakant.Prelude.Text.{Text, codes, after_prefix}
use vakant.Broadcast.{
  Progress, is_pending, is_sent, is_failed, is_blocked, ErrorKind, kind_blocked, deactivated,
  chat_not_found, bad_request, flood, network, other, sent_unparsed,
}

-- An exception of a send, by the classes that `classify_error` tells apart. The body that could not
-- be decoded: whether it is JSON that fails validation, and whether it says `ok: false`.
pub data SendError : Type 0 where
  retry_after : ℕ → SendError
  forbidden entity_too_large server_error network_error : SendError
  client_decode : Bool → Bool → SendError
  client_error timeout connection_error : SendError
  telegram_bad_request telegram_not_found unknown_error : SendError

abbrev pub max_retry_after_seconds : ℕ
max_retry_after_seconds = 3600

abbrev pub error_text_limit : ℕ
error_text_limit = 200

-- `_delivered_but_unparsed`
abbrev pub delivered_but_unparsed : SendError → Bool
delivered_but_unparsed (client_decode validation says_failed) = validation && not says_failed
delivered_but_unparsed _ = false

-- `marker in text`
unfoldable pub occurs : Text → Text → Bool
occurs marker [] = (elim (after_prefix marker []) [ none ↦ false | some _ ↦ true ])
occurs marker (c ∷ s) =
    let later = occurs marker s in
    elim (after_prefix marker (c ∷ s)) [ none ↦ later | some _ ↦ true ]

abbrev pub chat_not_found_markers : List Text
chat_not_found_markers =
    codes "chat not found"
    ∷ (codes "user not found" ∷ (codes "peer_id_invalid" ∷ (codes "chat_id is empty" ∷ [])))

-- The kind of an error that is none of the first three, on its lowered text.
abbrev pub kind_of : SendError → Text → ErrorKind
kind_of (retry_after _) low = flood
kind_of forbidden low = kind_blocked
kind_of entity_too_large low = bad_request
kind_of server_error low = network
kind_of network_error low = network
kind_of (client_decode _ _) low = network
kind_of client_error low = network
kind_of timeout low = network
kind_of connection_error low = network
kind_of telegram_bad_request low =
    if any (λ marker. occurs marker low) chat_not_found_markers then chat_not_found else bad_request
kind_of telegram_not_found low =
    if any (λ marker. occurs marker low) chat_not_found_markers then chat_not_found else other
kind_of unknown_error low = other

abbrev pub is_retry_after : SendError → Bool
is_retry_after (retry_after _) = true
is_retry_after _ = false

-- The seconds that a 429 asks for, at most an hour.
abbrev pub seconds_asked : SendError → Option ℕ
seconds_asked (retry_after seconds) = some (min seconds max_retry_after_seconds)
seconds_asked _ = none

-- `classify_error`: the kind and `retry_after`; `text` is `_error_text`, `low` its lower case
unfoldable pub classify_error : SendError → Text → ErrorKind × Option ℕ
classify_error e low =
    if delivered_but_unparsed e
    then (sent_unparsed, none)
    else if is_retry_after e
    then (flood, seconds_asked e)
    else if occurs (codes "user is deactivated") low
    then (deactivated, none)
    else (kind_of e low, none)

-- `TRANSIENT_KINDS`
abbrev pub is_transient : ErrorKind → Bool
is_transient flood = true
is_transient network = true
is_transient _ = false

-- `UNREACHABLE_KINDS`
abbrev pub is_unreachable : ErrorKind → Bool
is_unreachable kind_blocked = true
is_unreachable deactivated = true
is_unreachable _ = false

-- `CONTENT_KINDS`
abbrev pub is_content : ErrorKind → Bool
is_content bad_request = true
is_content other = true
is_content _ = false

abbrev pub max_attempts : ℕ
max_attempts = 6

abbrev pub backoff_base_seconds : ℕ
backoff_base_seconds = 10

abbrev pub backoff_cap_seconds : ℕ
backoff_cap_seconds = 600

-- `backoff_seconds`
unfoldable pub backoff_seconds : ℕ → ℕ
backoff_seconds attempts_made = min backoff_cap_seconds (backoff_base_seconds * 2 ^ attempts_made)

-- The dictionary that `_deliver` returns.
pub data Sending : Type 0 where
  delivered : Option Text → Sending
  delivered_unparsed : Text → Sending
  error_of : ErrorKind → Text → Option ℕ → Sending

abbrev pub sending_of : ErrorKind → Text → Option ℕ → Sending
sending_of sent_unparsed shown seconds = delivered_unparsed shown
sending_of kind shown seconds = error_of kind shown seconds

-- `_deliver`, on what the call of Telegram raised
unfoldable pub failure_of : (Text → Text) → SendError → Text → Sending
unfolding classify_error
failure_of lowered e message =
    let shown = take error_text_limit message in
    let (kind, seconds) = classify_error e (lowered shown) in sending_of kind shown seconds

-- The columns that `plan_outcome` sets.
pub record Plan : Type 0 where
  pub status : Progress
  pub error : Option Text
  pub error_kind : Option ErrorKind
  pub attempts : ℕ
  pub next_attempt_at : Option ℕ
  pub sent_at : Option ℕ

abbrev pub delay_of : ErrorKind → Option ℕ → ℕ → ℕ
delay_of flood (some seconds) attempts_before = max (backoff_seconds attempts_before) seconds
delay_of _ _ attempts_before = backoff_seconds attempts_before

abbrev pub planned_error : ErrorKind → Text → Option ℕ → ℕ → ℕ → Plan
planned_error kind message seconds attempts_before now =
    if is_transient kind && ltb (attempts_before + 1) max_attempts
    then (record {
      status = is_pending;
      error = some message;
      error_kind = some kind;
      attempts = attempts_before + 1;
      next_attempt_at = some (now + delay_of kind seconds attempts_before);
      sent_at = none;
    })
    else (record {
      status = if is_unreachable kind then is_blocked else is_failed;
      error = some message;
      error_kind = some kind;
      attempts = attempts_before + 1;
      next_attempt_at = none;
      sent_at = none;
    })

abbrev pub planned_sent : Option Text → Option ErrorKind → ℕ → ℕ → Plan
planned_sent message warning attempts_before now = record {
  status = is_sent;
  error = message;
  error_kind = warning;
  attempts = attempts_before + 1;
  next_attempt_at = none;
  sent_at = some now;
}

-- `plan_outcome`
unfoldable pub plan_outcome : Sending → ℕ → ℕ → Plan
plan_outcome (delivered file_id) attempts_before now = planned_sent none none attempts_before now
plan_outcome (delivered_unparsed message) attempts_before now =
    planned_sent (some message) (some sent_unparsed) attempts_before now
plan_outcome (error_of kind message seconds) attempts_before now =
    planned_error kind message seconds attempts_before now

-- `SendPause`: until when every send waits
unfoldable pub pause_for : ℕ → ℕ → ℕ → ℕ
pause_for now seconds until =
    if min seconds max_retry_after_seconds == 0
    then until
    else max until (now + min seconds max_retry_after_seconds)

-- `remaining`
abbrev pub remaining : ℕ → ℕ → ℕ
remaining now until = until - now
