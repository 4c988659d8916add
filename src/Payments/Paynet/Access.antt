-- ===== src/Payments/Paynet/Access.antt =====
-- Who may call the Paynet endpoint, webapp/payments/paynet.py: HTTP Basic, and the addresses that
-- failed it too often. The monotonic clock is read in whole seconds.
use vakant.Prelude.{
  ℕ, ◌-◌, Bool, false, not, ◌&&◌, ◌||◌, Option, none, some, List, [], ◌∷◌, ◌++◌, ltb, leb, ◌==◌,
  length, if◌then◌else◌,
}
use vakant.Prelude.Text.{Text, codes, text_eq}
use vakant.Payments.Paynet.{PaynetConfig}

-- What `authorized` uses: `strip`, `lower`, base64 with UTF-8, and sha256.
pub record Encodings : Type 0 where
  pub strip : Text → Text
  pub lowered : Text → Text
  pub b64decode : Text → Option Text
  pub digest : Text → Text

-- `s.partition(sep)`, none without the separator
unfoldable pub partition : ℕ → Text → Option (Text × Text)
partition sep [] = none
partition sep (c ∷ s) =
    let rest = partition sep s in
    if c == sep then some ([], s) else elim rest [ none ↦ none | some (a, b) ↦ some (c ∷ a, b) ]

-- Both halves of the decoded credentials, by their digests.
abbrev pub same_login : Encodings → PaynetConfig → Text × Text → Bool
same_login en cfg (username, password) =
    text_eq (en.digest username) (en.digest cfg.username)
    && text_eq (en.digest password) (en.digest cfg.password)

abbrev pub decoded_login : Encodings → Text → Option (Text × Text)
decoded_login en encoded = elim (en.b64decode encoded) [
  | none ↦ none
  | some login ↦ partition b':' login
]

-- `authorized`
unfoldable pub authorized : Encodings → Option Text → PaynetConfig → Bool
authorized en none cfg = false
authorized en (some []) cfg = false
authorized en (some (c ∷ s)) cfg = elim (partition b' ' (en.strip (c ∷ s))) [
  | none ↦ false
  | some (scheme, encoded) ↦
      if not (text_eq (en.lowered scheme) (codes "basic")) || text_eq (en.strip encoded) []
      then false
      else elim (decoded_login en (en.strip encoded)) [
        | none ↦ false
        | some login ↦ same_login en cfg login
      ]
]

-- `_AUTH_FAILS`: the times of the failures of each address, on the monotonic clock in seconds.
abbrev pub AuthFails : Type 0
AuthFails = List (Text × List ℕ)

abbrev pub auth_fail_limit : ℕ
auth_fail_limit = 30

abbrev pub auth_fail_window_seconds : ℕ
auth_fail_window_seconds = 60

unfoldable pub fails_of : Text → AuthFails → List ℕ
fails_of ip [] = []
fails_of ip ((x, q) ∷ fails) = if text_eq x ip then q else fails_of ip fails

-- The dictionary with the queue of `ip` put in place.
unfoldable pub put_fails : Text → List ℕ → AuthFails → AuthFails
put_fails ip q [] = (ip, q) ∷ []
put_fails ip q ((x, p) ∷ fails) =
    if text_eq x ip then (x, q) ∷ fails else (x, p) ∷ put_fails ip q fails

unfoldable pub drop_fails : Text → AuthFails → AuthFails
drop_fails ip [] = []
drop_fails ip ((x, p) ∷ fails) = if text_eq x ip then fails else (x, p) ∷ drop_fails ip fails

-- The `while` loop of `_auth_blocked`.
unfoldable pub recent : ℕ → List ℕ → List ℕ
recent now [] = []
recent now (f ∷ q) =
    let rest = recent now q in if ltb auth_fail_window_seconds (now - f) then rest else f ∷ q

-- `_auth_blocked`, on a queue and what the loop leaves of it
blocked_by : Text → List ℕ → List ℕ → AuthFails → Bool × AuthFails
blocked_by ip [] kept fails = (false, fails)
blocked_by ip (f ∷ q) [] fails = (false, drop_fails ip fails)
blocked_by ip (f ∷ q) (g ∷ kept) fails =
    (leb auth_fail_limit (length (g ∷ kept)), put_fails ip (g ∷ kept) fails)

pub auth_blocked : Text → ℕ → AuthFails → Bool × AuthFails
unfolding blocked_by
auth_blocked ip now fails = blocked_by ip (fails_of ip fails) (recent now (fails_of ip fails)) fails

-- `_note_auth_failure`
pub note_auth_failure : Text → ℕ → AuthFails → AuthFails
note_auth_failure ip now fails =
    let kept = if ltb 10_000 (length fails) then [] else fails in
    put_fails ip (fails_of ip kept ++ (now ∷ [])) kept
