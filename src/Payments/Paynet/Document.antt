-- ===== src/Payments/Paynet/Document.antt =====
-- A parsed JSON document, as webapp/payments/paynet.py sees it. What stands in an array is never
-- read, and is left out.
use vakant.Prelude.{Bool, Option, none, some, if◌then◌else◌, or_default}
use vakant.Prelude.Int.{ℤ}
use vakant.Prelude.Text.{Text, text_eq}
use vakant.Payments.Shop.Runtime.{Float}

mutual
  pub data Json : Type 0 where
    null : Json
    boolean : Bool → Json
    whole : ℤ → Json
    real : Float → Json
    text : Text → Json
    array : Json
    object : Members → Json

  pub data Members : Type 0 where
    no_members : Members
    member : Text → Json → Members → Members

-- `name in params`, and `params.get(name)`
abbrev pub lookup : Text → Members → Option Json
lookup name no_members = none
lookup name (member key value more) = if text_eq key name then some value else lookup name more

-- `params[name]` of a name that is there
abbrev pub at : Text → Members → Json
at name params = or_default null (lookup name params)
