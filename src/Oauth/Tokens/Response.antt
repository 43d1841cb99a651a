-- ===== src/Oauth/Tokens/Response.antt =====
-- What a response of tokens holds.
-- About src/oauth/token/issue.ts.
use mathlib.Core.Path.{subst}
use keyforge.Prelude.{
  String, ◌≡◌, refl, sym, ap, ◌∙◌, ◌⊎◌, inl, inr, true, false, Option, none, some, Bool-cases,
  includes, string_eq, option_eq, nat_eq,
}
use keyforge.Security.Crypto.{Platform}
use keyforge.Oauth.Errors.{Attempt, returned, thrown, returned_injective, >>=-eq-returned}
use keyforge.RefreshTokens.{Store}
use keyforge.RefreshTokens.Issue.{Draw, token_of, issue_refresh_token}
use keyforge.RefreshTokens.Issue.Cap.{Holds, issue_refresh_token-Holds}
use keyforge.Oauth.Tokens.{
  User, TokenResponse, AccessInput, IdInput, Signer, TokenInput, id_token_for, signed_response,
  access_input, id_input, refresh_input, attach, is_refreshable, add_refresh_token,
  issue_user_tokens, available,
}

-- Signed tokens, with an identity token exactly if `openid` was granted.
pub record IsSigned (signer : Signer) (access : AccessInput) (id : IdInput)
    (refresh_token : Option String) (response : TokenResponse) : Type 0 where
  pub access_token :
      signer.issue_user_access_token access ≡ returned (response.access_token, response.expires_in)
  pub id_token : id_token_for signer (includes id.scopes "openid") id ≡ returned response.id_token
  pub scope : response.scope ≡ access.scope
  pub refreshes : response.refresh_token ≡ refresh_token

pub signed_response-IsSigned :
    (signer : Signer) (access : AccessInput) (id : IdInput) (refresh_token : Option String)
    (response : TokenResponse)
    → signed_response signer access id refresh_token ≡ returned response
    → IsSigned signer access id refresh_token response
signed_response-IsSigned signer access id refresh_token response h =
    let (token, t, rest) = >>=-eq-returned (signer.issue_user_access_token access) _ h in
    let (id_token, i, made) =
      >>=-eq-returned (id_token_for signer (includes id.scopes "openid") id) _ rest in
    let e = returned_injective _ _ made in
    record {
      access_token = t ∙ ap (λ r. returned (r.access_token, r.expires_in)) e;
      id_token = i ∙ ap (λ r. returned r.id_token) e;
      scope = sym (ap (λ r. r.scope) e);
      refreshes = sym (ap (λ r. r.refresh_token) e);
    }

-- A refresh token is handed out for offline access by a client that may use it, with its row in the
-- table and the number of families bounded; else the table stays as it was.
abbrev pub Refreshes :
    Platform → Draw → TokenInput → (before after : Store) → TokenResponse → Type 0
Refreshes p draw input before after response =
    ((is_refreshable input ≡ false) × (response.refresh_token ≡ none) × (after ≡ before))
    ⊎ ((is_refreshable input ≡ true)
        × (response.refresh_token ≡ some (token_of draw))
        × Holds p draw (refresh_input input) after.rows)

pub record IsIssued (p : Platform) (signer : Signer) (draw : Draw) (input : TokenInput)
    (before after : Store) (response : TokenResponse) : Type 0 where
  pub signed : IsSigned signer (access_input input) (id_input input) response.refresh_token response
  pub refreshed : Refreshes p draw input before after response

abbrev with_refresh : Option String → TokenResponse → TokenResponse
with_refresh refresh_token response = record response { refresh_token = refresh_token }

added :
    (p : Platform) (draw : Draw) (input : TokenInput) (first response : TokenResponse) (s : Store)
    → first.refresh_token ≡ none
    → (add_refresh_token p draw input (returned first) s).0 ≡ returned response
    → (with_refresh response.refresh_token first ≡ response)
      × Refreshes p draw input s (add_refresh_token p draw input (returned first) s).1 response
unfolding add_refresh_token
added p draw input first response s bare h = elim (Bool-cases (is_refreshable input)) [
  | inr not_offline ↦
      let e = returned_injective _ _ (rw not_offline at h) in
      (
        ap (with_refresh response.refresh_token) e,
        inl (not_offline, sym (ap (λ r. r.refresh_token) e) ∙ bare, rw not_offline refl),
      )
  | inl offline ↦
      let (issued, i, made) =
        >>=-eq-returned (issue_refresh_token p draw (refresh_input input) s).0 (attach first)
          (rw offline at h) in
      let e = returned_injective _ _ made in
      let (token, holds) = issue_refresh_token-Holds p draw (refresh_input input) s issued i in
      (
        ap (with_refresh response.refresh_token) e,
        inr (offline, sym (ap (λ r. r.refresh_token) e) ∙ ap some token, rw offline holds),
      )
]

issued :
    (p : Platform) (signer : Signer) (draw : Draw) (input : TokenInput) (s : Store)
    (response : TokenResponse) (attempt : Attempt TokenResponse)
    → signed_response signer (access_input input) (id_input input) none ≡ attempt
    → (add_refresh_token p draw input attempt s).0 ≡ returned response
    → IsIssued p signer draw input s (add_refresh_token p draw input attempt s).1 response
unfolding add_refresh_token
issued p signer draw input s response (thrown code) e h = cc
issued p signer draw input s response (returned first) e h =
    let signed =
      signed_response-IsSigned signer (access_input input) (id_input input) none first e in
    let (same, refreshed) = added p draw input first response s signed.refreshes h in
    record {
      signed = record {
        access_token = signed.access_token ∙ ap (λ r. returned (r.access_token, r.expires_in)) same;
        id_token = signed.id_token ∙ ap (λ r. returned r.id_token) same;
        scope = sym (ap (λ r. r.scope) same) ∙ signed.scope;
        refreshes = refl;
      };
      refreshed = refreshed;
    }

-- A response is signed for its input, and has a refresh token exactly if offline access was granted to a
-- client that may refresh; then its row is in the table and the number of live families is bounded.
pub issue_user_tokens-IsIssued :
    (p : Platform) (signer : Signer) (draw : Draw) (input : TokenInput) (s : Store)
    (response : TokenResponse)
    → (issue_user_tokens p signer draw input s).0 ≡ returned response
    → IsIssued p signer draw input s (issue_user_tokens p signer draw input s).1 response
unfolding issue_user_tokens
issue_user_tokens-IsIssued p signer draw input s response h =
    issued p signer draw input s response
      (signed_response signer (access_input input) (id_input input) none) refl h

pub available_user :
    (o : Option User) (user : User)
    → available o ≡ returned user
    → (o ≡ some user) × (user.disabled ≡ false)
available_user none user h = cc
available_user (some u) user h = elim (Bool-cases u.disabled) [
  | inl off ↦ cc (rw off at h)
  | inr on ↦
      (let e : u ≡ user = cc (rw on at h) in (ap some e, subst (λ x. x.disabled ≡ false) e on))
]
