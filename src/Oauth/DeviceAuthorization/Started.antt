-- ===== src/Oauth/DeviceAuthorization/Started.antt =====
-- What the endpoint starts.
-- About src/oauth/device-authorization.ts.
use keyforge.Prelude.{
  ◌<◌, String, ◌≡◌, refl, ◌⊎◌, inl, inr, true, false, List, ◌∷◌, arith, leb, Bool-cases, length,
  any, filter, includes, string_eq, option_eq, nat_eq,
}
use keyforge.Env.{device_code_grant}
use keyforge.Device.{Row, CreateInput, create_device_session, new_row, counts, clashes}
use keyforge.Oauth.Errors.{
  Attempt, returned, thrown, require, OauthErrorCode, unauthorized_client, require-returned,
  >>=-eq-returned,
}
use keyforge.Oauth.Scopes.{parse_scope_string}
use keyforge.Oauth.Resources.{resolve_resource_for_scopes}
use keyforge.Oauth.DeviceAuthorization.{
  Request, Answer, scopes_for, device_input, prepare, finish, create, handle_device_authorization,
}

-- The session that a request may start.
pub record IsStarted (q : Request) (rows : List Row) (input : CreateInput) : Type 0 where
  pub scopes : List String
  pub resource : String
  pub grant_type : includes q.client.allowed_grant_types device_code_grant ≡ true
  pub requested : scopes_for q.client (parse_scope_string q.scope) ≡ returned scopes
  pub granted :
      resolve_resource_for_scopes q.parse q.env q.directory q.client q.resource scopes
      ≡ returned resource
  pub made : device_input q scopes resource ≡ input
  pub room : length (filter (counts input q.now) rows) < input.max_active_sessions
  pub unused : any (clashes q.random_id input) rows ≡ false

returned_same {ℓ} : {A : Type ℓ} {a b : A} → returned a ≡ returned b → a ≡ b
returned_same h = cc

-- A statement that adds nothing, or a row for which there is room.
abbrev Creates : Request → List Row → CreateInput → Attempt Answer × List Row → Type 0
Creates q rows input result =
    (((code : OauthErrorCode) × (result.0 ≡ thrown code)) × (result.1 ≡ rows))
    ⊎ (((answer : Answer) × (result.0 ≡ returned answer)
          × (answer.device_code ≡ q.random_device_code))
        × (result.1 ≡ new_row q.random_id input q.now ∷ rows)
        × (length (filter (counts input q.now) rows) < input.max_active_sessions)
        × (any (clashes q.random_id input) rows ≡ false))

finished :
    (q : Request) (rows : List Row) (input : CreateInput)
    → Creates q rows input (finish q rows (create_device_session q.random_id input q.now rows))
unfolding finish create_device_session
finished q rows input =
    elim (Bool-cases (leb input.max_active_sessions (length (filter (counts input q.now) rows)))) [
      | inl full ↦ rw full (inl ((_, refl), refl))
      | inr room ↦ elim (Bool-cases (any (clashes q.random_id input) rows)) [
        | inl clash ↦ rw (room, clash) (inl ((_, refl), refl))
        | inr fresh ↦ rw (room, fresh) (inr ((_, refl, refl), refl, ground (arith, room), refl))
      ]
    ]

prepared :
    (q : Request) (rows : List Row) (input : CreateInput)
    → prepare q ≡ returned input
    → length (filter (counts input q.now) rows) < input.max_active_sessions
    → any (clashes q.random_id input) rows ≡ false
    → IsStarted q rows input
unfolding prepare
prepared q rows input h room unused =
    let (_, g, rest) =
      >>=-eq-returned
        (require (includes q.client.allowed_grant_types device_code_grant) unauthorized_client) _
        h in
    let (scopes, s, rest1) =
      >>=-eq-returned (scopes_for q.client (parse_scope_string q.scope)) _ rest in
    let (resource, r, made) =
      >>=-eq-returned
        (resolve_resource_for_scopes q.parse q.env q.directory q.client q.resource scopes) _
        rest1 in
    record {
      scopes = scopes;
      resource = resource;
      grant_type = require-returned _ unauthorized_client g;
      requested = s;
      granted = r;
      made = returned_same made;
      room = room;
      unused = unused;
    }

-- What the endpoint may answer, with the rows after it.
abbrev pub Starts : Request → List Row → Attempt Answer × List Row → Type 0
Starts q rows result =
    (((code : OauthErrorCode) × (result.0 ≡ thrown code)) × (result.1 ≡ rows))
    ⊎ (((answer : Answer) × (result.0 ≡ returned answer)
          × (answer.device_code ≡ q.random_device_code))
        × ((input : CreateInput) × (result.1 ≡ new_row q.random_id input q.now ∷ rows)
            × IsStarted q rows input))

created :
    (q : Request) (rows : List Row) (attempt : Attempt CreateInput)
    → prepare q ≡ attempt
    → Starts q rows (create q rows attempt)
unfolding create
created q rows (thrown code) h = inl ((code, refl), refl)
created q rows (returned input) h = elim (finished q rows input) [
  | inl kept ↦ inl kept
  | inr (a, added, room, unused) ↦ inr (a, (input, added, prepared q rows input h room unused))
]

-- The endpoint either fails and leaves the table as it was, or hands out the device code and adds one
-- pending session: for a client that may use the grant, with its requested or all of its scopes, for
-- a resource that it may be granted with them, while there is room, and with unused codes.
pub handle_device_authorization-Starts :
    (q : Request) (rows : List Row) → Starts q rows (handle_device_authorization q rows)
unfolding handle_device_authorization
handle_device_authorization-Starts q rows = created q rows (prepare q) refl
