-- ===== src/Env.antt =====
-- The bindings of the worker that the model reads, src/operations/yolo.ts and the constants of
-- src/config.ts. What a bypass writes to the console is not modelled.
pub mod TokenTtl
use keyforge.Prelude.{
  ℕ, String, Bool, ◌&&◌, Option, none, some, List, [], ◌∷◌, ◌==◌, string_eq, option_eq,
}

-- `YOLO_MODE` may be absent.
pub record Env : Type 0 where
  pub environment : String
  pub yolo_mode : Option String
  pub issuer : String

abbrev pub yolo_environment : String
yolo_environment = "dev"

abbrev pub is_yolo_enabled : Env → Bool
is_yolo_enabled env = env.environment == yolo_environment && env.yolo_mode == some "true"

-- The name of the check only reaches the console.
abbrev pub yolo_allow : Env → Bool
yolo_allow env = is_yolo_enabled env

-- REFRESH_TOKEN_POLICY.
abbrev pub minimum_rotation_interval_seconds : ℕ
minimum_rotation_interval_seconds = 10

abbrev pub maximum_generation : ℕ
maximum_generation = 10000

abbrev pub maximum_active_families_per_user_client : ℕ
maximum_active_families_per_user_client = 20

abbrev pub device_poll_interval_seconds : ℕ
device_poll_interval_seconds = 5

abbrev pub user_only_scopes : List String
user_only_scopes = "openid" ∷ "profile" ∷ "email" ∷ "offline_access" ∷ []

abbrev pub grant_types : List String
grant_types =
    "authorization_code" ∷ "refresh_token" ∷ "urn:ietf:params:oauth:grant-type:device_code"
    ∷ "client_credentials" ∷ []

abbrev pub device_code_grant : String
device_code_grant = "urn:ietf:params:oauth:grant-type:device_code"
