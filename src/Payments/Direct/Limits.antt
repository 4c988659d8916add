-- ===== src/Payments/Direct/Limits.antt =====
-- `hit_limit` of webapp/payments/service.py counts every hit, and lets at most the limit through.
use vakant.Prelude.{
  ℕ, ◌+◌, ◌-◌, ◌≡◌, ◌≤◌, refl, not, ◌&&◌, List, [], ◌∷◌, ltb, ◌==◌, if◌then◌else◌, arith,
  Bool-cases, inl, inr,
}
use vakant.Prelude.Text.{Text, text_eq, text_eq_refl}
use vakant.Db.{Conn, Hits}
use vakant.Db.Exec.{Result, ok, err, api_error, rate_limited}
use vakant.Payments.Direct.{count, hits_of, window_of, hit_limit}

hits_of-count :
    (bucket : Text) (start : ℕ) (hs : List Hits)
    → hits_of bucket start (count bucket start hs) ≡ hits_of bucket start hs + 1
unfolding count hits_of
hits_of-count bucket start [] = rw (text_eq_refl bucket) (ground arith)
hits_of-count bucket start (h ∷ hs) =
    elim (Bool-cases (text_eq h.bucket bucket && h.window_start == start)) [
      | inl here ↦ rw here (rw here refl)
      | inr there ↦ rw there (rw there (hits_of-count bucket start hs))
    ]

-- How a call ends, from the count.
abbrev answer_of : ℕ → ℕ → ℕ → Result (Unit {0})
answer_of limit wait hits =
    if not (ltb limit hits) then ok tt else err (api_error (rate_limited wait))

-- Every hit is counted in its window and committed, and a call returns exactly when the count of
-- its window, with itself, is within the limit.
pub hit_limit_counts :
    (now : ℕ) (bucket : Text) (limit window : ℕ) (c : Conn)
    → let start = window_of now window in
      let (r, c') = hit_limit now bucket limit window c in
      (hits_of bucket start c'.saved.rate_limits ≡ hits_of bucket start c.live.rate_limits + 1)
      × (r ≡ ok tt → hits_of bucket start c.live.rate_limits + 1 ≤ limit)
      × (hits_of bucket start c.live.rate_limits + 1 ≤ limit → r ≡ ok tt)
unfolding hit_limit
hit_limit_counts now bucket limit window c =
    let counted = hits_of-count bucket (window_of now window) c.live.rate_limits in
    let both = verdict (window_of now window + window - now) (
      hits_of bucket (window_of now window)
        (count bucket (window_of now window) c.live.rate_limits)) in
    (counted, λ e. ground (arith, both.0 e, counted), λ h. both.1 (ground (arith, h, counted)))
  where
    verdict :
        (wait hits : ℕ)
        → (answer_of limit wait hits ≡ ok tt → hits ≤ limit)
          × (hits ≤ limit → answer_of limit wait hits ≡ ok tt)
    verdict wait hits = elim (Bool-cases (ltb limit hits)) [
      | inl over ↦ (λ e. absurd (ground (arith, over, e)), λ h. absurd (ground (arith, over, h)))
      | inr within ↦ (λ e. ground (arith, within), λ h. rw within refl)
    ]
