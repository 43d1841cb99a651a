-- ===== src/Env/TokenTtl.antt =====
-- TOKEN_TTL of src/config.ts, in seconds.
use keyforge.Prelude.{ℕ, ◌*◌}

abbrev pub id_token : ℕ
id_token = 600

abbrev pub user_access_token : ℕ
user_access_token = 900

abbrev pub service_access_token : ℕ
service_access_token = 600

abbrev pub authorization_code : ℕ
authorization_code = 60

abbrev pub refresh_token : ℕ
refresh_token = 30 * 24 * 60 * 60

abbrev pub refresh_token_remember_me : ℕ
refresh_token_remember_me = 90 * 24 * 60 * 60

abbrev pub device_code : ℕ
device_code = 600
