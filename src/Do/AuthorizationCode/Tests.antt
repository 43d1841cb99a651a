-- ===== src/Do/AuthorizationCode/Tests.antt =====
-- Authorization codes at concrete presentations.
-- About src/do/AuthorizationCodeDO.ts.
use keyforge.Security.Crypto.Sample.{sample, sample-IsEncoding}
use keyforge.Env.{Env}
use keyforge.Do.OneTime.{Storage}
use keyforge.Do.AuthorizationCode.{
  Payload, Input, Reason, found, refused, binding, consume_if, redeemed, differs, judge_value,
  settle,
}
use keyforge.Do.AuthorizationCode.Consume.{
  consume_if-found_iff, consume_if_storage, redeemed_once, IsLive, IsEntitled,
}
use keyforge.Prelude.{
  ◌≡◌, refl, ◌↔◌, ◌⊎◌, true, false, none, some, [], ◌∷◌, string_eq, option_eq, nat_eq,
}

abbrev production : Env
production = record {
  environment = "production";
  yolo_mode = some "true";
  issuer = "https://id.example";
}

abbrev payload : Payload
payload = record {
  issuer = "https://id.example";
  client_id = "app";
  user_id = "usr_1";
  redirect_uri = "https://app.example/cb";
  scope = "openid";
  resource = "https://api.example";
  resource_required = false;
  metadata_fingerprint = none;
  code_challenge = "";
  nonce = none;
  auth_time = 1;
  session_id = "sess_1";
}

abbrev stored : Storage Payload
stored = record {
  consumed = some false;
  expires_at = some 60000;
  value = some payload;
  alarm_at = some 120000;
}

-- Another client presents the code.
abbrev stolen : Input
stolen = record {
  issuer = "https://id.example";
  client_id = "other";
  redirect_uri = "https://app.example/cb";
  resource = none;
  metadata_fingerprint = none;
  code_verifier = "";
}

stolen_refused : consume_if sample production stolen 1000 stored ≡ (refused binding, stored)
unfolding consume_if differs judge_value settle
stolen_refused = refl

consume_if-found_iff_example :
    ((consume_if sample production stolen 1000 stored).0 ≡ found payload)
    ↔ (IsLive stored 1000 payload × IsEntitled sample production payload stolen)
consume_if-found_iff_example =
    consume_if-found_iff sample production stolen 1000 stored payload sample-IsEncoding

consume_if_storage_example :
    (((reason : Reason) × ((consume_if sample production stolen 1000 stored).0 ≡ refused reason))
      × ((consume_if sample production stolen 1000 stored).1 ≡ stored))
    ⊎ (((value : Payload) × ((consume_if sample production stolen 1000 stored).0 ≡ found value)
          × (stored.value ≡ some value))
        × ((consume_if sample production stolen 1000 stored).1
            ≡ record stored { consumed = some true }))
consume_if_storage_example = consume_if_storage sample production stolen 1000 stored

redeemed_once_example :
    (redeemed sample production ((stolen, 1000) ∷ (stolen, 1001) ∷ []) stored ≡ [])
    ⊎ ((value : Payload) × (stored.value ≡ some value)
        × (redeemed sample production ((stolen, 1000) ∷ (stolen, 1001) ∷ []) stored ≡ value ∷ []))
redeemed_once_example =
    redeemed_once sample production ((stolen, 1000) ∷ (stolen, 1001) ∷ []) stored
