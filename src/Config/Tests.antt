-- ===== src/Config/Tests.antt =====
-- The default settings of binance_th/config.py.
use binance_th.Prelude.{◌≡◌, refl, false, some}
use binance_th.Config.{default_config, has_credentials, get_secret_value}

default_runs :
    (has_credentials default_config ≡ false)
    × (get_secret_value (record default_config { api_secret = some "s" }) ≡ some "s")
unfolding has_credentials get_secret_value
default_runs = (refl, refl)
