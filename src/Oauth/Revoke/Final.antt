-- ===== src/Oauth/Revoke/Final.antt =====
-- What a revocation by a client leads to.
-- About src/oauth/revoke.ts.
use keyforge.Prelude.{
  ℕ, String, ◌≡◌, refl, ◌⊎◌, inl, inr, true, false, some, List, [], eq_iff, Bool-cases, ◌==◌,
  string_eq, option_eq, nat_eq, IsMember, ◌↔◌, ◌&&◌, arith,
}
use keyforge.Security.Crypto.{Platform}
use keyforge.Oauth.Domain.{OauthClient}
use keyforge.RefreshTokens.{Row, Store}
use keyforge.RefreshTokens.Revocation.{marked-IsRevoked}
use keyforge.RefreshTokens.Rotate.{Call, handed_out}
use keyforge.RefreshTokens.Rotate.Revocation.{handed_out-IsRevoked}
use keyforge.Oauth.RefreshGrant.{lookup_presented_family}
use keyforge.Oauth.RefreshGrant.Lookup.{lookup_presented_family-IsMember}
use keyforge.Oauth.Revoke.{Answers, RevokeAnswer, accepted, server_error, revoke_own, handle_revoke}

-- What the answer to the owner of a token means for the token's family, and for the store.
pub IsFinal : Platform → Row → List Call → Store → (RevokeAnswer × Store) → Type 0
IsFinal p row calls before (answer, after) =
    ((answer ≡ accepted) × (handed_out p row.id calls after ≡ []))
    ⊎ ((answer ≡ server_error) × (after.rows ≡ before.rows))

revoke_own-IsFinal :
    (p : Platform) (answers : Answers) (now : ℕ) (s : Store) (row : Row) (calls : List Call)
    → IsMember row s.rows
    → IsFinal p row calls s (revoke_own answers now row s)
unfolding IsFinal
revoke_own-IsFinal p answers now s row calls m = elim (Bool-cases answers.object) [
  | inr silent ↦ rw silent (inr (refl, refl))
  | inl heard ↦ elim (Bool-cases answers.database) [
    | inr lost ↦ rw (heard, lost) (inr (refl, refl))
    | inl written ↦
        rw (heard, written)
          (inl (refl, handed_out-IsRevoked row.id p calls _ (marked-IsRevoked row now s.rows m)))
  ]
]

-- If the token names a row of the client, the request is accepted only if no token of its family is
-- rotated by any later call; else it fails, because the family's object or the database did not answer,
-- and every row is as it was. If both answer, it is accepted. If the row is another client's, the
-- request is accepted and nothing changes.
pub handle_revoke-IsFinal :
    (p : Platform) (answers : Answers) (now : ℕ) (client : OauthClient) (token : String) (s : Store)
    (row : Row) (calls : List Call)
    → lookup_presented_family p token s.rows ≡ some row
    → ((row.client_id ≡ client.client_id)
        × IsFinal p row calls s (handle_revoke p answers now client (some token) s)
        × (((answers.object && answers.database) ≡ true)
            ↔ ((handle_revoke p answers now client (some token) s).0 ≡ accepted)))
      ⊎ (((row.client_id == client.client_id) ≡ false)
          × (handle_revoke p answers now client (some token) s ≡ (accepted, s)))
unfolding handle_revoke
handle_revoke-IsFinal p answers now client token s row calls found =
    elim (Bool-cases (row.client_id == client.client_id)) [
      | inr foreign ↦ inr (foreign, rw (found, foreign) refl)
      | inl own ↦ inl (
        (eq_iff row.client_id client.client_id).0 own,
        rw (found, own)
            (revoke_own-IsFinal p answers now s row calls
              (lookup_presented_family-IsMember p token s.rows row found)),
        rw (found, own) (ground (arith, Bool-cases answers.object, Bool-cases answers.database)),
      )
    ]
