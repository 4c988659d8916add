-- ===== src/Payments/Merchant.antt =====
-- The errors of Click's Merchant API, webapp/payments/merchant.py; its HTTP calls are parameters of
-- what uses them.
use vakant.Prelude.{Bool, true, false, Option, none, some, List, [], ◌∷◌, if◌then◌else◌, ◌&&◌}
use vakant.Prelude.Int.{ℤ, negsuc, eqb_ℤ}
use vakant.Prelude.Text.{Text}

-- `STAGES`
pub data Stage : Type 0 where
  card_request card_verify card_payment invoice_create invoice_status payment_status : Stage

-- The `failure` of an error.
pub data Failure : Type 0 where
  declined unavailable config unknown : Failure

-- The `reason` keys.
pub data Reason : Type 0 where
  card_rejected sms_invalid payment_failed invoice_failed generic : Reason
  config_reason amount already_paid order_not_found payment_not_found cancelled_reason : Reason
  insufficient_funds card_limit card_expired card_unsupported card_not_found phone_not_registered :
      Reason

-- `ClickMerchantError`
pub record ClickMerchantError : Type 0 where
  pub stage : Stage
  pub failure : Failure
  pub reason : Reason
  pub error_code : Option ℤ
  pub outcome_unknown : Bool

-- How a call ended.
pub data Sent (A : Type 0) : Type 0 where
  accepted : A → Sent A
  refused : ClickMerchantError → Sent A

-- `STAGE_FALLBACK`
abbrev pub stage_fallback : Stage → Reason
stage_fallback card_request = card_rejected
stage_fallback card_verify = sms_invalid
stage_fallback card_payment = payment_failed
stage_fallback invoice_create = invoice_failed
stage_fallback invoice_status = generic
stage_fallback payment_status = generic

-- `BY_CODE`
abbrev pub by_code : ℤ → Option Reason
by_code code =
    if eqb_ℤ code (negsuc 0)
    then some config_reason
    else if eqb_ℤ code (negsuc 1)
    then some amount
    else if eqb_ℤ code (negsuc 3)
    then some already_paid
    else if eqb_ℤ code (negsuc 4)
    then some order_not_found
    else if eqb_ℤ code (negsuc 5)
    then some payment_not_found
    else if eqb_ℤ code (negsuc 8)
    then some cancelled_reason
    else none

-- The stages that a rule of `NOTE_RULES` is for; every stage, or the ones that are named.
abbrev pub any_stage : Stage → Bool
any_stage s = true

abbrev pub on_card : Stage → Bool
on_card card_request = true
on_card card_payment = true
on_card _ = false

abbrev pub on_verify : Stage → Bool
on_verify card_verify = true
on_verify _ = false

abbrev pub on_invoice : Stage → Bool
on_invoice invoice_create = true
on_invoice _ = false

-- `re.search` of the patterns of `NOTE_RULES`, by the reason that each gives.
module _ (search_note : Reason → Text → Bool) where
  -- `NOTE_RULES`
  abbrev pub note_rules : List ((Stage → Bool) × Reason)
  note_rules =
      (any_stage, insufficient_funds)
      ∷ ((any_stage, card_limit)
          ∷ ((on_card, card_expired)
              ∷ ((on_verify, sms_invalid)
                  ∷ ((on_card, card_unsupported)
                      ∷ ((on_card, card_not_found) ∷ ((on_invoice, phone_not_registered) ∷ []))))))

  -- The loop over the rules.
  unfoldable pub first_rule : Stage → Text → List ((Stage → Bool) × Reason) → Option Reason
  first_rule stage note [] = none
  first_rule stage note ((applies, reason) ∷ rules) =
      if applies stage && search_note reason note then some reason else first_rule stage note rules

  abbrev pub note_reason : Stage → Text → Reason × Bool
  note_reason stage note = elim (first_rule stage note note_rules) [
    | none ↦ (stage_fallback stage, false)
    | some reason ↦ (reason, true)
  ]

  -- `click_error_reason`: the reason, and whether it is known
  pub click_error_reason : Stage → Option ℤ → Text → Reason × Bool
  click_error_reason stage none note = note_reason stage note
  click_error_reason stage (some code) note = elim (by_code code) [
    | none ↦ note_reason stage note
    | some reason ↦ (reason, true)
  ]
