-- ===== src/Oauth/CodeGrant/Granted.antt =====
-- When an authorization code yields tokens.
-- About src/oauth/token/authorization-code.ts.
use keyforge.Prelude.{
  String, ◌≡◌, refl, sym, ap, ◌∙◌, inl, inr, true, false, Option, none, some, ◌∷◌, Option-cases,
  string_eq, option_eq, nat_eq, beq_refl, option_beq_iff, codes,
}
use keyforge.Security.Crypto.{IsEncoding, hash_opaque_token}
use keyforge.Do.OneTime.{Storage}
use keyforge.Do.AuthorizationCode.{
  Payload, Input, Outcome, found, refused, not_found, binding, resource, pkce, consume_if,
}
use keyforge.Do.AuthorizationCode.Consume.{
  IsLive, IsEntitled, consume_if-found_iff, consume_if-found,
}
use keyforge.Oauth.Errors.{
  Attempt, returned, thrown, require, invalid_grant, require-returned, >>=-eq-returned,
  returned_injective,
}
use keyforge.Oauth.Scopes.{parse_scope_string}
use keyforge.Oauth.Resources.{resolve_resource_for_scopes}
use keyforge.Oauth.Tokens.{
  TokenResponse, TokenInput, available, session_is, is_consented, is_permitted, issue_user_tokens,
}
use keyforge.Oauth.Tokens.Response.{IsIssued, issue_user_tokens-IsIssued, available_user}
use keyforge.Oauth.CodeGrant.{
  State, Request, presentation, put, grant_input, check_grant, code_grant, record_grant,
  issue_checked, answer_code, exchange, exchange_presented, handle_authorization_code,
}

-- The payload passes the handler's checks, and the tokens are made from it.
pub record IsChecked (q : Request) (grant : Payload) (input : TokenInput) : Type 0 where
  pub user : q.view.user_by_id grant.user_id ≡ some input.user
  pub enabled : input.user.disabled ≡ false
  pub session : q.view.session_user grant.session_id ≡ some input.user.id
  pub consent :
      is_consented q.env q.client q.view grant.user_id grant.resource
        (parse_scope_string (some grant.scope))
      ≡ true
  pub permitted :
      is_permitted q.env q.client q.view grant.user_id grant.resource
        (parse_scope_string (some grant.scope))
      ≡ true
  pub resource :
      (uri : String) × (resolve_resource_for_scopes q.parse q.env q.directory q.client
          (some grant.resource)
          (parse_scope_string (some grant.scope))
        ≡ returned uri)
  pub for_grant : input ≡ grant_input q.client grant input.user

checked :
    (q : Request) (grant : Payload) (input : TokenInput)
    → check_grant q grant ≡ returned input
    → IsChecked q grant input
unfolding check_grant
checked q grant input h =
    let (user, u, rest) = >>=-eq-returned (available (q.view.user_by_id grant.user_id)) _ h in
    let (_, session, rest1) =
      >>=-eq-returned (require (session_is q.view (some grant.session_id) user.id) invalid_grant) _
        rest in
    let (_, consent, rest2) =
      >>=-eq-returned
        (require
          (is_consented q.env q.client q.view grant.user_id grant.resource
            (parse_scope_string (some grant.scope)))
          invalid_grant)
        _ rest1 in
    let (_, permitted, rest3) =
      >>=-eq-returned
        (require
          (is_permitted q.env q.client q.view grant.user_id grant.resource
            (parse_scope_string (some grant.scope)))
          invalid_grant)
        _ rest2 in
    let (uri, r, made) =
      >>=-eq-returned
        (resolve_resource_for_scopes q.parse q.env q.directory q.client (some grant.resource)
          (parse_scope_string (some grant.scope)))
        _ rest3 in
    let e = returned_injective _ _ made in
    let (found_user, on) = available_user _ user u in
    let same : user ≡ input.user = ap (λ i. i.user) e in
    record {
      user = found_user ∙ ap some same;
      enabled = ap (λ x. x.disabled) (sym same) ∙ on;
      session =
          (option_beq_iff _ _).0 (require-returned _ invalid_grant session)
          ∙ ap (λ x. some x.id) same;
      consent = require-returned _ invalid_grant consent;
      permitted = require-returned _ invalid_grant permitted;
      resource = (uri, r);
      for_grant = sym e ∙ ap (grant_input q.client grant) same;
    }

-- What an exchange that hands out tokens rests on, and what it leaves.
pub record IsExchanged (q : Request) (before after : State) (response : TokenResponse)
    : Type 0 where
  pub code : String
  pub redirect_uri : String
  pub code_verifier : String
  pub presented :
      (q.code ≡ some code)
      × (q.redirect_uri ≡ some redirect_uri)
      × (q.code_verifier ≡ some code_verifier)
  pub grant : Payload
  pub live : IsLive (before.codes (hash_opaque_token q.platform code)) q.now grant
  pub entitled : IsEntitled q.platform q.env grant (presentation q redirect_uri code_verifier)
  pub input : TokenInput
  pub checks : IsChecked q grant input
  pub issued : IsIssued q.platform q.signer q.draw input before.tokens after.tokens response
  pub spent :
      after.codes (hash_opaque_token q.platform code)
      ≡ record (before.codes (hash_opaque_token q.platform code)) { consumed = some true }
  pub recorded : after.grants ≡ code_grant input ∷ before.grants

-- From the object's answer on.
record IsAnswered (q : Request) (grant : Payload) (before after : State) (response : TokenResponse)
    : Type 0 where
  input : TokenInput
  checks : IsChecked q grant input
  issued : IsIssued q.platform q.signer q.draw input before.tokens after.tokens response
  kept : after.codes ≡ before.codes
  recorded : after.grants ≡ code_grant input ∷ before.grants

recorded :
    (input : TokenInput) (attempt : Attempt TokenResponse) (s : State) (response : TokenResponse)
    → (record_grant input attempt s).0 ≡ returned response
    → (attempt ≡ returned response)
      × ((record_grant input attempt s).1 ≡ record s { grants = code_grant input ∷ s.grants })
unfolding record_grant
recorded input (thrown code) s response h = cc
recorded input (returned first) s response h = (h, refl)

issued_checked :
    (q : Request) (grant : Payload) (attempt : Attempt TokenInput) (s : State)
    (response : TokenResponse)
    → check_grant q grant ≡ attempt
    → (issue_checked q attempt s).0 ≡ returned response
    → IsAnswered q grant s (issue_checked q attempt s).1 response
unfolding issue_checked
issued_checked q grant (thrown code) s response c h = cc
issued_checked q grant (returned input) s response c h =
    let after : State = record s {
      tokens = (issue_user_tokens q.platform q.signer q.draw input s.tokens).1;
    } in
    let (e, same) =
      recorded input (issue_user_tokens q.platform q.signer q.draw input s.tokens).0 after response
        h in
    record {
      input = input;
      checks = checked q grant input c;
      issued =
          rw same (issue_user_tokens-IsIssued q.platform q.signer q.draw input s.tokens response e);
      kept = ap (λ x. x.codes) same;
      recorded = ap (λ x. x.grants) same;
    }

answered :
    (q : Request) (outcome : Outcome) (s : State) (response : TokenResponse)
    → (answer_code q outcome s).0 ≡ returned response
    → (grant : Payload) × (outcome ≡ found grant)
      × IsAnswered q grant s (answer_code q outcome s).1 response
unfolding answer_code
answered q (refused not_found) s response h = cc
answered q (refused binding) s response h = cc
answered q (refused resource) s response h = elim (Option-cases q.resource) [
  | inl missing ↦ cc (rw missing at h)
  | inr (presented, given) ↦ cc (rw given at h)
]
answered q (refused pkce) s response h = cc
answered q (found grant) s response h = (grant, refl, issued_checked q grant _ s response refl h)

put_same :
    (name : String) (storage : Storage Payload) (codes : String → Storage Payload)
    → put name storage codes name ≡ storage
put_same name storage codes = rw (beq_refl name) refl

exchanged :
    (q : Request) (code redirect_uri code_verifier : String) (s : State) (response : TokenResponse)
    → IsEncoding q.platform
    → (exchange q code redirect_uri code_verifier s).0 ≡ returned response
    → (q.code ≡ some code)
      × (q.redirect_uri ≡ some redirect_uri)
      × (q.code_verifier ≡ some code_verifier)
    → IsExchanged q s (exchange q code redirect_uri code_verifier s).1 response
unfolding exchange
exchanged q code redirect_uri code_verifier s response encoding h presented =
    let name : String = hash_opaque_token q.platform code in
    let input : Input = presentation q redirect_uri code_verifier in
    let (grant, e, a) =
      answered q (consume_if q.platform q.env input q.now (s.codes name)).0 _ response h in
    let (live, entitled) =
      (consume_if-found_iff q.platform q.env input q.now (s.codes name) grant encoding).0 e in
    record {
      code = code;
      redirect_uri = redirect_uri;
      code_verifier = code_verifier;
      presented = presented;
      grant = grant;
      live = live;
      entitled = entitled;
      input = a.input;
      checks = a.checks;
      issued = a.issued;
      spent =
          ap (λ codes. codes name) a.kept
          ∙ put_same name _ s.codes
          ∙ consume_if-found q.platform q.env input q.now (s.codes name) grant e;
      recorded = a.recorded;
    }

presented_all :
    (q : Request) (c r v : Option String) (s : State) (response : TokenResponse)
    → IsEncoding q.platform
    → (exchange_presented q c r v s).0 ≡ returned response
    → (q.code ≡ c) × (q.redirect_uri ≡ r) × (q.code_verifier ≡ v)
    → IsExchanged q s (exchange_presented q c r v s).1 response
unfolding exchange_presented
presented_all q (some c) (some r) (some v) s response encoding h given =
    exchanged q c r v s response encoding h given
presented_all q none r v s response encoding h given = cc
presented_all q (some c) none v s response encoding h given = cc
presented_all q (some c) (some r) none s response encoding h given = cc

-- Tokens are issued only for a live code, for an enabled user whose session it still is, and,
-- unless the mode that skips validation is on, only if the request is entitled to the code and the
-- consent, the policy and the resource still allow what it was issued for; they are made from the
-- code's payload, the code is spent, and the grant is recorded. The encoding of texts is assumed
-- to be faithful.
pub handle_authorization_code-returned :
    (q : Request) (s : State) (response : TokenResponse)
    → IsEncoding q.platform
    → (handle_authorization_code q s).0 ≡ returned response
    → IsExchanged q s (handle_authorization_code q s).1 response
unfolding handle_authorization_code
handle_authorization_code-returned q s response encoding h =
    presented_all q q.code q.redirect_uri q.code_verifier s response encoding h (refl, refl, refl)
