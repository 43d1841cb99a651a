-- ===== src/RefreshTokens/Rotate/Tests.antt =====
-- One rotation, and one revocation.
-- About src/tokens/refresh-token.ts.
use keyforge.Prelude.{◌≡◌, refl, inl, true, false, List, [], ◌∷◌, arith}
use keyforge.Security.Crypto.Sample.{sample}
use keyforge.RefreshTokens.{for_user, selects, revoke_refresh_families}
use keyforge.RefreshTokens.Sample.{sample_row}
use keyforge.RefreshTokens.Rotate.{Call, rotates, rotate_refresh_token, handed_out}
use keyforge.RefreshTokens.Rotate.Mirror.{IsHandedOut, rotate_refresh_token-IsHandedOut}
use keyforge.RefreshTokens.Rotate.Revocation.{revoked_never_rotated}
use keyforge.RefreshTokens.Rotate.Sample.{draw, store, handed, rotates_once}

rotate_refresh_token-IsHandedOut_example :
    IsHandedOut sample draw "rtf_2.r" "app" "read" store
      (rotate_refresh_token sample draw "rtf_2.r" "app" "read" store).1
      handed
rotate_refresh_token-IsHandedOut_example =
    rotate_refresh_token-IsHandedOut sample draw "rtf_2.r" "app" "read" store handed rotates_once

abbrev calls : List Call
calls = rotates draw "rtf_2.r" "app" "read" ∷ []

selected : selects (for_user "usr_1") sample_row ≡ true
unfolding selects
selected = refl

revoked_never_rotated_example :
    handed_out sample "rtf_2" calls
      (revoke_refresh_families (for_user "usr_1") 95 (λ id. false) (λ id. false) store).1
    ≡ []
revoked_never_rotated_example =
    revoked_never_rotated sample (for_user "usr_1") 95 (λ id. false) (λ id. false) store sample_row
      calls (inl refl) selected (omega arith)
