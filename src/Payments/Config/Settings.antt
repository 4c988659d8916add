-- ===== src/Payments/Config/Settings.antt =====
-- The credentials of the environment, webapp/payments/config.py. `strip` is Python's `str.strip`.
use vakant.Prelude.{
  ℕ, ◌≡◌, arith, ◌++◌, Bool, true, false, not, ◌||◌, Option, none, some, List, [], ◌∷◌, ◌==◌,
  if◌then◌else◌, is_none,
}
use vakant.Payments.Paynet.{PaynetConfig}
use vakant.Prelude.Text.{Text, codes, is_number, int_of}

-- The settings that these functions read; one that is missing is empty.
pub record Settings : Type 0 where
  pub click_service_id : Text
  pub click_merchant_id : Text
  pub click_secret_key : Text
  pub click_merchant_user_id : Text
  pub paynet_username : Text
  pub paynet_password : Text
  pub paynet_service_ids : Text
  pub paynet_client_param : Text

-- `ClickConfig`
pub record ClickConfig : Type 0 where
  pub service_id : Text
  pub merchant_id : Text
  pub secret_key : Text
  pub merchant_user_id : Text

abbrev pub is_empty : Text → Bool
is_empty [] = true
is_empty (c ∷ s) = false

-- `s.split(",")`
unfoldable pub split_from : Text → Text → List Text
split_from part [] = part ∷ []
split_from part (c ∷ s) =
    let rest = split_from [] s in
    let longer = split_from (part ++ (c ∷ [])) s in if c == b',' then part ∷ rest else longer

abbrev pub split : Text → List Text
split s = split_from [] s

module _ (strip : Text → Text) where
  -- `click_config`
  unfoldable pub click_config : Settings → Option ClickConfig
  click_config settings =
      let service_id = strip settings.click_service_id in
      let merchant_id = strip settings.click_merchant_id in
      let secret_key = strip settings.click_secret_key in
      let merchant_user_id = strip settings.click_merchant_user_id in
      if is_empty service_id
        || is_empty merchant_id
        || is_empty secret_key
        || is_empty merchant_user_id
      then none
      else some (record {
        service_id = service_id;
        merchant_id = merchant_id;
        secret_key = secret_key;
        merchant_user_id = merchant_user_id;
      })

  -- `shop_credentials`
  pub shop_credentials : Settings → Option (Text × Text)
  shop_credentials settings =
      let service_id = strip settings.click_service_id in
      let secret = strip settings.click_secret_key in
      if is_empty service_id || is_empty secret then none else some (service_id, secret)

  -- `payments_enabled`
  pub payments_enabled : Settings → Bool
  payments_enabled settings = not (is_none (click_config settings))

  -- The numbers among the parts of `PAYNET_SERVICE_IDS`.
  unfoldable pub numbers_in : List Text → List ℕ
  numbers_in [] = []
  numbers_in (part ∷ parts) =
      if is_number (strip part) then int_of (strip part) ∷ numbers_in parts else numbers_in parts

  abbrev pub or_client_id : Text → Text
  or_client_id [] = codes "client_id"
  or_client_id (c ∷ s) = c ∷ s

  abbrev pub no_numbers : List ℕ → Bool
  no_numbers [] = true
  no_numbers (n ∷ ns) = false

  -- `paynet_config`
  pub paynet_config : Settings → Option PaynetConfig
  paynet_config settings =
      let service_ids = numbers_in (split settings.paynet_service_ids) in
      if is_empty settings.paynet_username
        || is_empty settings.paynet_password
        || no_numbers service_ids
      then none
      else some (record {
        username = settings.paynet_username;
        password = settings.paynet_password;
        service_ids = service_ids;
        client_param = or_client_id (strip settings.paynet_client_param);
      })

  -- The callback can settle whenever new orders can be made: with all four values there are the
  -- two that the signature needs, and they are the same two.
  pub shop_credentials-click_config :
      (settings : Settings) (cfg : ClickConfig)
      → click_config settings ≡ some cfg
      → shop_credentials settings ≡ some (cfg.service_id, cfg.secret_key)
  unfolding click_config shop_credentials
  shop_credentials-click_config settings cfg h = ground (arith, h)
