-- ===== src/RefreshTokens/Sample.antt =====
-- An issuance and a store with no rows and no families.
-- About src/db/queries/tokens.ts and src/tokens/refresh-token-revocation.ts.
use keyforge.Prelude.{true, false, none, []}
use keyforge.Do.RefreshFamily.{empty}
use keyforge.RefreshTokens.{Row, Store}
use keyforge.RefreshTokens.Issue.{Draw}

abbrev pub sample_draw : Draw
sample_draw = record {
  family_id = "rtf_1";
  random = "r";
  now = 110;
  init_now = 110;
  session_active = true;
  outage = false;
  first = λ id. true;
  second = λ id. true;
}

abbrev pub sample_store : Store
sample_store = record { rows = []; families = λ id. empty }

abbrev pub sample_row : Row
sample_row = record {
  id = "rtf_2";
  token_hash = "h";
  user_id = "usr_1";
  client_id = "app";
  session_id = none;
  resource = "https://api.example";
  scope = "read";
  generation = 0;
  remember_me = false;
  created_at = 90;
  last_rotated_at = 90;
  expires_at = 900;
  auth_time = 80;
  revoked_at = none;
}
