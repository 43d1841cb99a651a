-- ===== src/Oauth/RefreshGrant/Granted.antt =====
-- When the refresh grant yields tokens.
-- About src/oauth/token/refresh-token.ts.
use mathlib.Core.Path.{subst}
use keyforge.Prelude.{
  ◌<◌, String, ◌≡◌, refl, ap, ◌∙◌, ◌⊎◌, inl, inr, Bool, true, false, not, ◌&&◌, Option, none, some,
  List, arith, eq_iff, leb, Bool-cases, any, includes, ◌==◌, any_of_mem, IsMember, includes_iff,
  string_eq, option_eq, nat_eq,
}
use keyforge.Oauth.Errors.{
  Attempt, returned, thrown, require, invalid_grant, invalid_scope, unauthorized_client,
  require-returned, >>=-eq-returned, returned_injective,
}
use keyforge.Oauth.Scopes.{parse_scope_string, serialize_scopes}
use keyforge.Oauth.Resources.{resolve_resource_for_scopes}
use keyforge.Oauth.Tokens.{User, TokenResponse, available, is_consented, is_permitted}
use keyforge.Oauth.Tokens.Response.{IsSigned, signed_response-IsSigned, available_user}
use keyforge.RefreshTokens.{Row, Store, is_unrevoked}
use keyforge.RefreshTokens.Rotate.{
  Rotated, RotateOutcome, rotated, reuse_detected, too_soon, reauthorization_required, invalid,
  rotate_refresh_token,
}
use keyforge.RefreshTokens.Rotate.Mirror.{IsHandedOut, rotate_refresh_token-IsHandedOut}
use keyforge.Oauth.RefreshGrant.{
  Request, tokens, lookup_presented_family, present, is_mcp, check_resource, requested_scopes,
  is_empty, expands, is_sourced, as_invalid_grant, check_authorization, check_row, check_request,
  rotated_access, rotated_id, issue_rotated_tokens, answer_outcome, refresh, refresh_presented,
  handle_refresh_token,
}

-- The row that the token names, and the scopes that are asked for, pass the handler's checks.
pub record IsChecked (q : Request) (presented : String) (s : Store) (row : Row)
    (scopes : List String) : Type 0 where
  pub grant_type : includes q.client.allowed_grant_types "refresh_token" ≡ true
  pub found : lookup_presented_family q.platform presented s.rows ≡ some row
  pub client : row.client_id ≡ q.client.client_id
  pub unrevoked : is_unrevoked row ≡ true
  pub in_time : q.now < row.expires_at
  pub same_resource : (q.resource ≡ none) ⊎ (q.resource ≡ some row.resource)
  pub asked : scopes ≡ requested_scopes (parse_scope_string (some row.scope)) q.scope
  pub some_scope : is_empty scopes ≡ false
  pub narrow :
      (scope : String)
      → IsMember scope scopes
      → IsMember scope (parse_scope_string (some row.scope))
  pub user :
      (user : User) × (q.before.user_by_id row.user_id ≡ some user)
      × (user.disabled ≡ false)
      × (is_sourced q.before row.session_id user.id ≡ true)
  pub permitted : is_permitted q.env q.client q.before row.user_id row.resource scopes ≡ true
  pub consent : is_consented q.env q.client q.before row.user_id row.resource scopes ≡ true
  pub resource :
      (uri : String) × (resolve_resource_for_scopes q.parse q.env q.directory q.client
          (some row.resource)
          scopes
        ≡ returned uri)

module _ (original scopes : List String) where
  expands_none :
      any (λ scope. not (includes original scope)) scopes ≡ false
      → (scope : String) → IsMember scope scopes
      → IsMember scope original
  expands_none h scope m = elim (Bool-cases (includes original scope)) [
    | inl has ↦ (includes_iff original scope).0 has
    | inr lacks ↦ cc (any_of_mem (λ x. not (includes original x)) scopes scope m (rw lacks refl), h)
  ]

as_invalid_grant-returned :
    {A : Type 0} (attempt : Attempt A) (a : A)
    → as_invalid_grant attempt ≡ returned a
    → attempt ≡ returned a
as_invalid_grant-returned (thrown code) a h = cc
as_invalid_grant-returned (returned b) a h = h

resource_allowed :
    (mcp : Bool) (bound : String) (presented : Option String)
    → check_resource mcp bound presented ≡ returned tt
    → (presented ≡ none) ⊎ (presented ≡ some bound)
resource_allowed mcp bound none h = inl refl
resource_allowed mcp bound (some presented) h =
    inr (ap some ((eq_iff presented bound).0 (require-returned _ invalid_grant h)))

present-returned : {A : Type 0} (o : Option A) (a : A) → present o ≡ returned a → o ≡ some a
present-returned none a h = cc
present-returned (some b) a h = cc

-- The checks in the order of the handler, each of which passed.
authorization_checked :
    (q : Request) (row : Row) (scopes final : List String)
    → check_authorization q row scopes ≡ returned final
    → (user : User) × (q.before.user_by_id row.user_id ≡ some user)
      × (user.disabled ≡ false)
      × (is_sourced q.before row.session_id user.id ≡ true)
      × (is_permitted q.env q.client q.before row.user_id row.resource scopes ≡ true)
      × (is_consented q.env q.client q.before row.user_id row.resource scopes ≡ true)
      × ((uri : String) × (resolve_resource_for_scopes q.parse q.env q.directory q.client
              (some row.resource)
              scopes
            ≡ returned uri))
      × (scopes ≡ final)
unfolding check_authorization
authorization_checked q row scopes final h =
    let (user, u, rest) = >>=-eq-returned (available (q.before.user_by_id row.user_id)) _ h in
    let (_, sourced, rest1) =
      >>=-eq-returned (require (is_sourced q.before row.session_id user.id) invalid_grant) _ rest in
    let (_, permitted, rest2) =
      >>=-eq-returned
        (require (is_permitted q.env q.client q.before row.user_id row.resource scopes)
          invalid_grant)
        _ rest1 in
    let (_, consent, rest3) =
      >>=-eq-returned
        (require (is_consented q.env q.client q.before row.user_id row.resource scopes)
          invalid_grant)
        _ rest2 in
    let (uri, r, made) =
      >>=-eq-returned
        (as_invalid_grant (
          resolve_resource_for_scopes q.parse q.env q.directory q.client (some row.resource)
            scopes))
        _ rest3 in
    let (found_user, on) = available_user _ user u in
    (
      user,
      found_user,
      on,
      require-returned _ invalid_grant sourced,
      require-returned _ invalid_grant permitted,
      require-returned _ invalid_grant consent,
      (uri, as_invalid_grant-returned _ uri r),
      returned_injective _ _ made,
    )

request_checked :
    (q : Request) (presented : String) (s : Store) (scopes : List String)
    → check_request q presented s.rows ≡ returned scopes
    → (row : Row) × IsChecked q presented s row scopes
unfolding check_request check_row
request_checked q presented s scopes h =
    let (_, grant_type, rest) =
      >>=-eq-returned
        (require (includes q.client.allowed_grant_types "refresh_token") unauthorized_client) _ h in
    let (row, f, rest1) =
      >>=-eq-returned (present (lookup_presented_family q.platform presented s.rows)) _ rest in
    let original : List String = parse_scope_string (some row.scope) in
    let asked : List String = requested_scopes original q.scope in
    let (_, live, rest2) =
      >>=-eq-returned
        (require
          (row.client_id == q.client.client_id
            && is_unrevoked row
            && not (leb row.expires_at q.now))
          invalid_grant)
        _ rest1 in
    let (_, same_resource, rest3) =
      >>=-eq-returned
        (check_resource (is_mcp (q.directory.resource_by_uri row.resource)) row.resource q.resource)
        _ rest2 in
    let (_, narrow, rest4) =
      >>=-eq-returned (require (not (expands original asked)) invalid_scope) _ rest3 in
    let (user, u, on, sourced, permitted, consent, resource, same) =
      authorization_checked q row asked scopes rest4 in
    let lives = require-returned _ invalid_grant live in
    let narrows = require-returned _ invalid_scope narrow in
    (
      row,
      subst (IsChecked q presented s row) same (record {
        grant_type = require-returned _ unauthorized_client grant_type;
        found = present-returned _ row f;
        client = (eq_iff row.client_id q.client.client_id).0 (ground (arith, lives));
        unrevoked = ground (arith, lives);
        in_time = ground (arith, lives);
        same_resource = resource_allowed _ row.resource q.resource same_resource;
        asked = refl;
        some_scope = ground (arith, narrows);
        narrow = expands_none original asked (ground (arith, narrows));
        user = (user, u, on, sourced);
        permitted = permitted;
        consent = consent;
        resource = resource;
      }),
    )

-- What a refresh that hands out tokens rests on, and what it leaves.
pub record IsRefreshed (q : Request) (before after : Store) (response : TokenResponse)
    : Type 0 where
  pub presented : String
  pub given : q.refresh_token ≡ some presented
  pub row : Row
  pub scopes : List String
  pub checks : IsChecked q presented before row scopes
  pub r : Rotated
  pub handed :
      IsHandedOut q.platform q.draw presented q.client.client_id
        (serialize_scopes scopes)
        before
        after
        r
  pub user : User
  pub user_found : q.after.user_by_id r.user_id ≡ some user
  pub enabled : user.disabled ≡ false
  pub signed :
      IsSigned q.signer
        (rotated_access q.client user r)
        (rotated_id q.client user r)
        (some r.token)
        response
  pub narrowed : response.scope ≡ serialize_scopes scopes

abbrev Signed : Request → Rotated → TokenResponse → Type 0
Signed q r response =
    (user : User) × (q.after.user_by_id r.user_id ≡ some user)
    × (user.disabled ≡ false)
    × IsSigned q.signer (rotated_access q.client user r) (rotated_id q.client user r) (some r.token)
        response

rotated-Signed :
    (q : Request) (r : Rotated) (response : TokenResponse)
    → issue_rotated_tokens q r ≡ returned response
    → Signed q r response
unfolding issue_rotated_tokens
rotated-Signed q r response h =
    let (_, _, rest) =
      >>=-eq-returned (require (r.client_id == q.client.client_id) invalid_grant) _ h in
    let (user, u, made) = >>=-eq-returned (available (q.after.user_by_id r.user_id)) _ rest in
    let (found_user, on) = available_user _ user u in
    (
      user,
      found_user,
      on,
      signed_response-IsSigned q.signer (rotated_access q.client user r)
          (rotated_id q.client user r) (some r.token) response made,
    )

tokens_injective : (a b : TokenResponse) → returned (tokens a) ≡ returned (tokens b) → a ≡ b
tokens_injective a b h = cc

outcome_answered :
    (q : Request) (outcome : Attempt RotateOutcome) (response : TokenResponse)
    → answer_outcome q outcome ≡ returned (tokens response)
    → (r : Rotated) × (outcome ≡ returned (rotated r)) × Signed q r response
unfolding answer_outcome
outcome_answered q (thrown code) response h = cc
outcome_answered q (returned invalid) response h = cc
outcome_answered q (returned (reuse_detected family_id)) response h = cc
outcome_answered q (returned (too_soon seconds)) response h = cc
outcome_answered q (returned (reauthorization_required family_id)) response h = cc
outcome_answered q (returned (rotated r)) response h =
    let (first, e, made) = >>=-eq-returned (issue_rotated_tokens q r) _ h in
    (r, refl, rotated-Signed q r response (e ∙ ap returned (tokens_injective _ _ made)))

refreshed :
    (q : Request) (presented : String) (attempt : Attempt (List String)) (s : Store)
    (response : TokenResponse)
    → q.refresh_token ≡ some presented
    → check_request q presented s.rows ≡ attempt
    → (refresh q presented attempt s).0 ≡ returned (tokens response)
    → IsRefreshed q s (refresh q presented attempt s).1 response
unfolding refresh
refreshed q presented (thrown code) s response g c h = cc
refreshed q presented (returned scopes) s response g c h =
    let (row, checks) = request_checked q presented s scopes c in
    let (r, e, made) =
      outcome_answered q
        (rotate_refresh_token q.platform q.draw presented q.client.client_id
          (serialize_scopes scopes) s).0
        response h in
    let (user, u, on, signed) = made in
    let handed =
      rotate_refresh_token-IsHandedOut q.platform q.draw presented q.client.client_id
        (serialize_scopes scopes) s r e in
    record {
      presented = presented;
      given = g;
      row = row;
      scopes = scopes;
      checks = checks;
      r = r;
      handed = handed;
      user = user;
      user_found = u;
      enabled = on;
      signed = signed;
      narrowed = signed.scope ∙ ap (λ x. x.scope) handed.handed ∙ handed.rotation.for_scope;
    }

given_token :
    (q : Request) (o : Option String) (s : Store) (response : TokenResponse)
    → q.refresh_token ≡ o
    → (refresh_presented q o s).0 ≡ returned (tokens response)
    → IsRefreshed q s (refresh_presented q o s).1 response
unfolding refresh_presented
given_token q none s response g h = cc
given_token q (some presented) s response g h = refreshed q presented _ s response g refl h

-- Tokens are refreshed only for a client that may use the grant and whom the token's row names,
-- while the row is neither revoked nor expired, for its resource and for a non-empty choice of its
-- scopes, if the user is enabled and the session, if there is one, is still the user's, if, unless
-- the mode that skips validation is on, the consent, the policy and the resource still allow
-- these, and if the family's object and its one unrevoked row both accept the rotation; the
-- response has exactly those scopes.
pub handle_refresh_token-returned :
    (q : Request) (s : Store) (response : TokenResponse)
    → (handle_refresh_token q s).0 ≡ returned (tokens response)
    → IsRefreshed q s (handle_refresh_token q s).1 response
unfolding handle_refresh_token
handle_refresh_token-returned q s response h = given_token q q.refresh_token s response refl h
