-- ===== src/Payments/Direct/Tests.antt =====
-- Hits on a limit of webapp/payments/service.py, and credentials of webapp/payments/config.py.
use vakant.Prelude.{[], ◌∷◌}
use vakant.Prelude.Text.{Text, codes}
use vakant.Db.{Db}
use vakant.Payments.Config.Settings.{Settings, ClickConfig}
use vakant.Payments.Tests.{shop}

abbrev bucket : Text
bucket = codes "click-card:u:7"

abbrev counted : Db
counted = record shop {
  rate_limits = record { bucket = bucket; window_start = 3600; hits = 6 } ∷ [];
}

abbrev environment : Settings
environment = record {
  click_service_id = codes "5";
  click_merchant_id = codes "6";
  click_secret_key = codes "s";
  click_merchant_user_id = codes "8";
  paynet_username = [];
  paynet_password = [];
  paynet_service_ids = [];
  paynet_client_param = [];
}

abbrev credentials : ClickConfig
credentials = record {
  service_id = codes "5";
  merchant_id = codes "6";
  secret_key = codes "s";
  merchant_user_id = codes "8";
}
