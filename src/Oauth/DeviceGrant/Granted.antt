-- ===== src/Oauth/DeviceGrant/Granted.antt =====
-- When the device grant yields tokens.
-- About src/oauth/token/device-code.ts.
use mathlib.Core.Path.{subst}
use keyforge.Prelude.{
  List, [], ◌∷◌, any, update, ℕ, ◌<◌, String, ◌≡◌, refl, sym, ap, ◌∙◌, inl, inr, Bool, true, false,
  Option, none, some, arith, eq_iff, leb, Bool-cases, includes, ◌==◌, string_eq, option_eq, nat_eq,
}
use keyforge.Env.{device_code_grant}
use keyforge.Security.Crypto.{hash_opaque_token}
use keyforge.Device.{
  Row, Status, pending, approved, denied, expired, consumed, is_approved_at,
  get_device_by_device_code_hash, consume_approved_device, record_device_poll,
}
use keyforge.Oauth.Errors.{
  Attempt, returned, thrown, returned_injective, require, invalid_grant, require-returned,
  >>=-eq-returned,
}
use keyforge.Oauth.Domain.{OauthClient}
use keyforge.Oauth.Scopes.{parse_scope_string}
use keyforge.Oauth.Resources.{resolve_resource_for_scopes}
use keyforge.Oauth.Tokens.{
  User, TokenResponse, TokenInput, available, is_permitted, issue_user_tokens,
}
use keyforge.Oauth.Tokens.Response.{IsIssued, issue_user_tokens-IsIssued, available_user}
use keyforge.Oauth.DeviceGrant.{
  State, Approval, device_grant, approval_of, is_too_fast, is_authorized, check_approval, check_row,
  settle_tokens, redeem, still_authorized_for, Request, answer_status, poll, poll_found,
  handle_code, handle_device_code_grant,
}

-- The session that the device code names, ready to be exchanged by the client.
pub record IsReady (q : Request) (s : State) (row : Row) : Type 0 where
  pub code : String
  pub presented : q.device_code ≡ some code
  pub grant_type : includes q.client.allowed_grant_types device_code_grant ≡ true
  pub found : get_device_by_device_code_hash (hash_opaque_token q.platform code) s.rows ≡ some row
  pub client : row.client_id ≡ q.client.client_id
  pub in_time : q.clock.at_expiry < row.expires_at
  pub slow : is_too_fast q.clock.at_interval row.last_polled_at row.poll_interval_seconds ≡ false
  pub approved_status : row.status ≡ approved

-- The checks on an approved session before it is consumed.
pub record IsChecked (q : Request) (row : Row) (input : TokenInput) : Type 0 where
  pub approval : Approval
  pub approved_columns :
      approval_of row.user_id row.resource_uri row.session_id row.auth_time ≡ returned approval
  pub resource :
      (uri : String) × (resolve_resource_for_scopes q.parse q.env q.directory q.client
          (some approval.resource)
          (parse_scope_string (some row.scope))
        ≡ returned uri)
  pub user : q.before.user_by_id approval.user_id ≡ some input.user
  pub enabled : input.user.disabled ≡ false
  pub authorized :
      is_authorized q.parse q.env q.directory q.client q.before approval input.user
        (parse_scope_string (some row.scope))
      ≡ true
  pub permitted :
      is_permitted q.env q.client q.before approval.user_id approval.resource
        (parse_scope_string (some row.scope))
      ≡ true
  pub for_resource : input.resource ≡ approval.resource
  pub for_scope : input.scope ≡ row.scope

input_made :
    (user : User) (client : OauthClient) (scope resource : String) (auth_time : ℕ)
    (input : TokenInput)
    → record {
      user = user;
      client = client;
      scope = scope;
      resource = resource;
      nonce = none;
      auth_time = auth_time;
      session_id = none;
    }
      ≡ input
    → (user ≡ input.user) × (input.resource ≡ resource) × (input.scope ≡ scope)
input_made user client scope resource auth_time input h =
    (ap (λ i. i.user) h, sym (ap (λ i. i.resource) h), sym (ap (λ i. i.scope) h))

checked :
    (q : Request) (row : Row) (input : TokenInput)
    → check_row q.parse q.env q.directory q.client q.before row ≡ returned input
    → IsChecked q row input
unfolding check_row check_approval
checked q row input h =
    let (approval, a, rest) =
      >>=-eq-returned (approval_of row.user_id row.resource_uri row.session_id row.auth_time) _ h in
    let (user, u, made) =
      >>=-eq-returned
        (check_approval q.parse q.env q.directory q.client q.before approval
          (parse_scope_string (some row.scope)))
        _ rest in
    let (uri, r, rest1) =
      >>=-eq-returned
        (resolve_resource_for_scopes q.parse q.env q.directory q.client (some approval.resource)
          (parse_scope_string (some row.scope)))
        _ u in
    let (user', v, rest2) =
      >>=-eq-returned (available (q.before.user_by_id approval.user_id)) _ rest1 in
    let (_, w, rest3) =
      >>=-eq-returned
        (require
          (is_authorized q.parse q.env q.directory q.client q.before approval user'
            (parse_scope_string (some row.scope)))
          invalid_grant)
        _ rest2 in
    let (_, p, same) =
      >>=-eq-returned
        (require
          (is_permitted q.env q.client q.before approval.user_id approval.resource
            (parse_scope_string (some row.scope)))
          invalid_grant)
        _ rest3 in
    let (i, f, g) =
      input_made user q.client row.scope approval.resource approval.auth_time input
        (returned_injective _ _ made) in
    let e : user' ≡ input.user = returned_injective _ _ same ∙ i in
    record {
      approval = approval;
      approved_columns = a;
      resource = (uri, r);
      user =
          (available_user _ input.user
            (subst (λ x. available (q.before.user_by_id approval.user_id) ≡ returned x) e v)).0;
      enabled =
          (available_user _ input.user
            (subst (λ x. available (q.before.user_by_id approval.user_id) ≡ returned x) e v)).1;
      authorized =
          subst
            (λ x.
              is_authorized q.parse q.env q.directory q.client q.before approval x
                (parse_scope_string (some row.scope))
              ≡ true)
            e (require-returned _ invalid_grant w);
      permitted = require-returned _ invalid_grant p;
      for_resource = f;
      for_scope = g;
    }

-- The tokens for an approved session: its checks pass on the first view, this caller consumes it, and
-- the second view still authorizes. Afterwards the session is approved no more, and the tokens and the
-- grant are recorded.
pub record IsRedeemed (q : Request) (s : State) (row : Row) (after : State)
    (response : TokenResponse) : Type 0 where
  pub input : TokenInput
  pub checked : IsChecked q row input
  pub won :
      (consume_approved_device row.id (record_device_poll row.id q.clock.at_poll s.rows)).0 ≡ true
  pub authorized : still_authorized_for q.env q.client q.after row input ≡ true
  pub issued : IsIssued q.platform q.signer q.draw input s.tokens after.tokens response
  pub spent :
      after.rows
      ≡ update
          (is_approved_at row.id)
          (λ r. record r { status = consumed })
          (record_device_poll row.id q.clock.at_poll s.rows)
  pub approved_no_more : any (is_approved_at row.id) after.rows ≡ false
  pub recorded : after.grants ≡ device_grant input ∷ s.grants

none_approved :
    (id : String) (rows : List Row)
    → any
        (is_approved_at id)
        (update (is_approved_at id) (λ r. record r { status = consumed }) rows)
      ≡ false
none_approved id [] = refl
none_approved id (row ∷ rows) = ground (arith, none_approved id rows)

settled :
    (b : Bool) (now : ℕ) (input : TokenInput) (attempt : Attempt TokenResponse)
    (response : TokenResponse) (s : State)
    → (settle_tokens b now input attempt s).0 ≡ returned response
    → (b ≡ true)
      × (attempt ≡ returned response)
      × ((settle_tokens b now input attempt s).1
          ≡ record s { grants = device_grant input ∷ s.grants })
unfolding settle_tokens
settled b now input (thrown code) response s h = cc
settled true now input (returned first) response s h = (refl, h, refl)
settled false now input (returned first) response s h = cc

-- The state in which the tokens are settled.
abbrev consumed_state : Request → State → Row → TokenInput → State
consumed_state q s row input = record s {
  rows = (consume_approved_device row.id (record_device_poll row.id q.clock.at_poll s.rows)).1;
  tokens = (issue_user_tokens q.platform q.signer q.draw input s.tokens).1;
}

redeemed_won :
    (q : Request) (s : State) (row : Row) (response : TokenResponse) (input : TokenInput)
    → check_row q.parse q.env q.directory q.client q.before row ≡ returned input
    → (consume_approved_device row.id (record_device_poll row.id q.clock.at_poll s.rows)).0 ≡ true
    → (settle_tokens
        (still_authorized_for q.env q.client q.after row input)
        q.clock.at_revocation
        input
        (issue_user_tokens q.platform q.signer q.draw input s.tokens).0
        (consumed_state q s row input)).0
      ≡ returned response
    → IsRedeemed q s row
        (settle_tokens
          (still_authorized_for q.env q.client q.after row input)
          q.clock.at_revocation
          input
          (issue_user_tokens q.platform q.signer q.draw input s.tokens).0
          (consumed_state q s row input)).1
        response
unfolding consume_approved_device
redeemed_won q s row response input c won h =
    let (a, e, same) =
      settled (still_authorized_for q.env q.client q.after row input) q.clock.at_revocation input
        (issue_user_tokens q.platform q.signer q.draw input s.tokens).0 response
        (consumed_state q s row input) h in
    record {
      input = input;
      checked = checked q row input c;
      won = won;
      authorized = a;
      issued =
          rw same (issue_user_tokens-IsIssued q.platform q.signer q.draw input s.tokens response e);
      spent = ap (λ x. x.rows) same;
      approved_no_more =
          ap (λ x. any (is_approved_at row.id) x.rows) same
          ∙ none_approved row.id (record_device_poll row.id q.clock.at_poll s.rows);
      recorded = ap (λ x. x.grants) same;
    }

redeemed :
    (q : Request) (s : State) (row : Row) (response : TokenResponse) (attempt : Attempt TokenInput)
    → check_row q.parse q.env q.directory q.client q.before row ≡ attempt
    → (redeem q
        (still_authorized_for q.env q.client q.after row)
        row.id
        attempt
        (record s { rows = record_device_poll row.id q.clock.at_poll s.rows })).0
      ≡ returned response
    → IsRedeemed q s row
        (redeem q
          (still_authorized_for q.env q.client q.after row)
          row.id
          attempt
          (record s { rows = record_device_poll row.id q.clock.at_poll s.rows })).1
        response
unfolding redeem consume_approved_device
redeemed q s row response (thrown code) c h = cc
redeemed q s row response (returned input) c h =
    elim (Bool-cases
      (consume_approved_device row.id (record_device_poll row.id q.clock.at_poll s.rows)).0) [
        | inl won ↦ rw won (redeemed_won q s row response input c won (rw won at h))
        | inr lost ↦ cc (rw lost at h)
      ]

answered :
    (q : Request) (s : State) (row : Row) (response : TokenResponse) (status : Status)
    → (answer_status q row status
        (record s { rows = record_device_poll row.id q.clock.at_poll s.rows })).0
      ≡ returned response
    → (status ≡ approved)
      × IsRedeemed q s row
          (answer_status q row status
            (record s { rows = record_device_poll row.id q.clock.at_poll s.rows })).1
          response
unfolding answer_status
answered q s row response pending h = cc
answered q s row response denied h = cc
answered q s row response expired h = cc
answered q s row response consumed h = cc
answered q s row response approved h = (refl, redeemed q s row response _ refl h)

-- The times allow the session to be answered.
record IsOnTime (q : Request) (row : Row) : Type 0 where
  early : q.clock.at_expiry < row.expires_at
  slow : is_too_fast q.clock.at_interval row.last_polled_at row.poll_interval_seconds ≡ false

polled :
    (q : Request) (s : State) (row : Row) (response : TokenResponse)
    → (poll q row s).0 ≡ returned response
    → IsOnTime q row × (row.status ≡ approved) × IsRedeemed q s row (poll q row s).1 response
unfolding poll
polled q s row response h = elim (Bool-cases (leb row.expires_at q.clock.at_expiry)) [
  | inl over ↦ cc (rw over at h)
  | inr early ↦
      elim (Bool-cases
        (is_too_fast q.clock.at_interval row.last_polled_at row.poll_interval_seconds)) [
          | inl fast ↦ cc (rw (early, fast) at h)
          | inr slow ↦
              (let (status, redeemed') =
                  answered q s row response row.status (rw (early, slow) at h) in
                (record { early = ground arith; slow = slow }, status, rw (early, slow) redeemed'))
        ]
]

found_row :
    (q : Request) (s : State) (response : TokenResponse) (o : Option Row)
    → (poll_found q o s).0 ≡ returned response
    → (row : Row) × (o ≡ some row)
      × (row.client_id ≡ q.client.client_id)
      × IsOnTime q row
      × (row.status ≡ approved)
      × IsRedeemed q s row (poll_found q o s).1 response
unfolding poll_found
found_row q s response none h = cc
found_row q s response (some row) h = elim (Bool-cases (row.client_id == q.client.client_id)) [
  | inl own ↦
      (let (t, a, r) = polled q s row response (rw own at h) in
        (row, refl, (eq_iff row.client_id q.client.client_id).0 own, t, a, rw own r))
  | inr foreign ↦ cc (rw foreign at h)
]

coded :
    (q : Request) (s : State) (response : TokenResponse) (o : Option String)
    → q.device_code ≡ o
    → (handle_code q o s).0 ≡ returned response
    → (row : Row) × IsReady q s row × IsRedeemed q s row (handle_code q o s).1 response
unfolding handle_code
coded q s response none e h = cc
coded q s response (some code) e h =
    elim (Bool-cases (includes q.client.allowed_grant_types device_code_grant)) [
      | inl may ↦
          (let (row, f, c, t, a, r) = found_row q s response _ (rw may at h) in
            (
              row,
              record {
                code = code;
                presented = e;
                grant_type = may;
                found = f;
                client = c;
                in_time = t.early;
                slow = t.slow;
                approved_status = a;
              },
              rw may r,
            ))
      | inr barred ↦ cc (rw barred at h)
    ]

-- Tokens are issued only for a device code that the client, which may use the grant, was given, whose
-- session is approved, not expired and not polled too fast, if the approval is whole, its user enabled
-- and its browser session the user's, and, unless the mode that skips validation is on, if the consent,
-- the policy and the resource allow what was approved; this very call wins the session, which nobody
-- finds approved afterwards, and its browser session and, but in that mode, its consent still hold when
-- they are read again. The tokens and the grant are recorded.
pub handle_device_code_grant-returned :
    (q : Request) (s : State) (response : TokenResponse)
    → (handle_device_code_grant q s).0 ≡ returned response
    → (row : Row) × IsReady q s row × IsRedeemed q s row (handle_device_code_grant q s).1 response
unfolding handle_device_code_grant
handle_device_code_grant-returned q s response h = coded q s response q.device_code refl h
