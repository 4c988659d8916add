-- ===== src/Payments/Shop/Runtime.antt =====
-- What the callback uses of Python and its libraries: `float`, `str.strip` and `hashlib.md5`.
use vakant.Prelude.{ℕ, Bool}
use vakant.Prelude.Text.{Text}

-- A float: a finite one is a sign and a fraction.
pub data Float : Type 0 where
  nan : Float
  infinite : Bool → Float
  finite : Bool → ℕ → ℕ → Float

pub record Python : Type 0 where
  -- `float(text)`, and nan where it raises ValueError
  pub float : Text → Float
  -- `text.strip()`
  pub strip : Text → Text
  -- `text.lower()`
  pub lowered : Text → Text
  -- `hashlib.md5(text.encode("utf-8")).hexdigest()`
  pub md5 : Text → Text
