-- ===== src/RefreshTokens/Rotate/Sample.antt =====
-- A family, its row, and one rotation.
-- About src/tokens/refresh-token.ts.
use keyforge.Prelude.{String, ◌≡◌, refl, inl, false, some, [], ◌∷◌, arith}
use keyforge.Security.Crypto.{hash_opaque_token}
use keyforge.Security.Crypto.Sample.{sample}
use keyforge.Oauth.Errors.{returned}
use keyforge.Do.RefreshFamily
use keyforge.Do.RefreshFamily.{Storage, Meta, advance, empty}
use keyforge.Do.RefreshFamily.Fields.{rotate-rotated_iff}
use keyforge.RefreshTokens.{Store, family_of}
use keyforge.RefreshTokens.Sample.{sample_row}
use keyforge.RefreshTokens.Rotate.{
  Rotated, rotated, RotateDraw, new_token, rotated_from, mirror_rotation, answer_rotation,
  rotate_refresh_token,
}

abbrev pub draw : RotateDraw
draw = record { random = "n"; rotated_at = 100; rotated_later = 100; now = 100; outage = false }

abbrev pub meta : Meta
meta = record {
  user_id = "usr_1";
  client_id = "app";
  resource = "https://api.example";
  scope = "read";
  auth_time = some 80;
  absolute_expires_at = 900;
  created_at = 90;
  generation = 0;
  revoked = false;
  last_rotated_at = some 90;
}

abbrev pub hash : String
hash = hash_opaque_token sample "rtf_2.r"

abbrev pub family : Storage
family = record empty { meta = some meta; current_hash = some hash }

abbrev pub store : Store
store = record { rows = sample_row ∷ []; families = λ id. family }

abbrev pub handed : Rotated
handed = rotated_from (new_token draw "rtf_2.r") (advance meta "read" 100)

granted :
    (RefreshFamily.rotate hash
      (hash_opaque_token sample (new_token draw "rtf_2.r"))
      "app"
      "read"
      100
      100
      family).0
    ≡ RefreshFamily.rotated (advance meta "read" 100)
granted =
    (rotate-rotated_iff hash (hash_opaque_token sample (new_token draw "rtf_2.r")) "app" "read" 100
        100 family meta hash refl refl).1
      (record {
        is_current = refl;
        client = refl;
        unrevoked = refl;
        in_time = omega arith;
        below_limit = omega arith;
        spaced = inl refl;
      })

pub rotates_once :
    (rotate_refresh_token sample draw "rtf_2.r" "app" "read" store).0 ≡ returned (rotated handed)
unfolding rotate_refresh_token answer_rotation mirror_rotation family_of
rotates_once = rw granted refl
