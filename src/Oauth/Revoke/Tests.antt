-- ===== src/Oauth/Revoke/Tests.antt =====
-- A client revokes its token.
-- About src/oauth/revoke.ts.
use keyforge.Prelude.{true, ◌&&◌, ◌↔◌, ◌≡◌, ◌⊎◌, refl, false, some, [], ◌∷◌, ◌==◌, string_eq}
use keyforge.Security.Crypto.{hash_opaque_token}
use keyforge.Security.Crypto.Sample.{sample}
use keyforge.RefreshTokens.{family_of, get_refresh_token_by_hash, get_refresh_token_by_family_id}
use keyforge.RefreshTokens.Sample.{sample_row}
use keyforge.RefreshTokens.Rotate.{rotates}
use keyforge.RefreshTokens.Rotate.Sample.{draw, store}
use keyforge.Oauth.Tokens.Sample.{sample_client}
use keyforge.Oauth.RefreshGrant.{lookup_presented_family}
use keyforge.Oauth.Revoke.{Answers, accepted, handle_revoke}
use keyforge.Oauth.Revoke.Final.{IsFinal, handle_revoke-IsFinal}

found : lookup_presented_family sample "rtf_2.r" store.rows ≡ some sample_row
unfolding lookup_presented_family get_refresh_token_by_hash get_refresh_token_by_family_id family_of
    hash_opaque_token
found = refl

abbrev answering : Answers
answering = record { object = true; database = true }

handle_revoke-IsFinal_example :
    ((sample_row.client_id ≡ sample_client.client_id)
      × IsFinal sample sample_row
          (rotates draw "rtf_2.r" "app" "read" ∷ [])
          store
          (handle_revoke sample answering 95 sample_client (some "rtf_2.r") store)
      × (((answering.object && answering.database) ≡ true) ↔ (
          (handle_revoke sample answering 95 sample_client (some "rtf_2.r") store).0 ≡ accepted)))
    ⊎ (((sample_row.client_id == sample_client.client_id) ≡ false)
        × (handle_revoke sample answering 95 sample_client (some "rtf_2.r") store
            ≡ (accepted, store)))
handle_revoke-IsFinal_example =
    handle_revoke-IsFinal sample answering 95 sample_client "rtf_2.r" store sample_row
      (rotates draw "rtf_2.r" "app" "read" ∷ []) found
