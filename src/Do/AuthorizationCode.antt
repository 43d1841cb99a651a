-- ===== src/Do/AuthorizationCode.antt =====
-- src/do/AuthorizationCodeDO.ts over the storage of src/do/base.ts, with the payload of
-- src/types/tokens.ts. The object's storage transaction is one step.
pub mod Consume
pub mod Tests
use keyforge.Prelude.{
  ℕ, String, Bool, true, false, not, ◌&&◌, ◌||◌, Option, none, some, List, [], ◌∷◌, if◌then◌else◌,
  ◌==◌, ◌!=◌, string_eq, option_eq,
}
use keyforge.Env.{Env, is_yolo_enabled}
use keyforge.Security.Crypto.{Platform, timing_safe_equal_string}
use keyforge.Oauth.Pkce.{is_valid_code_verifier, compute_s256_challenge}
use keyforge.Do.OneTime.{Storage, is_not_false, is_over}

-- `codeChallengeMethod` has one value.
pub record Payload : Type 0 where
  pub issuer : String
  pub client_id : String
  pub user_id : String
  pub redirect_uri : String
  pub scope : String
  pub resource : String
  pub resource_required : Bool
  pub metadata_fingerprint : Option String
  pub code_challenge : String
  pub nonce : Option String
  pub auth_time : ℕ
  pub session_id : String

pub record Input : Type 0 where
  pub issuer : String
  pub client_id : String
  pub redirect_uri : String
  pub resource : Option String
  pub metadata_fingerprint : Option String
  pub code_verifier : String

pub data Reason : Type 0 where
  not_found binding resource pkce : Reason

pub data Outcome : Type 0 where
  found : Payload → Outcome
  refused : Reason → Outcome

differs : Payload → Input → Bool
differs value input =
    value.issuer != input.issuer
    || value.client_id != input.client_id
    || value.redirect_uri != input.redirect_uri
    || value.metadata_fingerprint != input.metadata_fingerprint

-- Without a presented resource: is one required? Else: is it another one?
resource_differs : Payload → Option String → Bool
resource_differs value none = value.resource_required
resource_differs value (some presented) = value.resource != presented

proof_fails : Platform → Payload → String → Bool
proof_fails p value verifier =
    if is_valid_code_verifier verifier
    then not (timing_safe_equal_string p (compute_s256_challenge p verifier) value.code_challenge)
    else true

-- The checks on a stored value that is there, in the order of the source.
judge : Platform → (yolo : Bool) → Input → Payload → Outcome
unfolding differs resource_differs proof_fails
judge p yolo input value =
    if not yolo && differs value input
    then refused binding
    else if not yolo && resource_differs value input.resource
    then refused resource
    else if not yolo && proof_fails p value input.code_verifier
    then refused pkce
    else found value

-- Only a judgement that finds the value consumes it.
settle : Outcome → Storage Payload → Outcome × Storage Payload
settle (found value) s = (found value, record s { consumed = some true })
settle (refused reason) s = (refused reason, s)

judge_value : Platform → (yolo : Bool) → Input → Option Payload → Outcome
unfolding judge
judge_value p yolo input none = refused not_found
judge_value p yolo input (some value) = judge p yolo input value

pub consume_if : Platform → Env → Input → (now : ℕ) → Storage Payload → Outcome × Storage Payload
consume_if p env input now s =
    if is_not_false s.consumed || is_over s.expires_at now
    then (refused not_found, s)
    else settle (judge_value p (is_yolo_enabled env) input s.value) s

abbrev pub payload_of : Outcome → List Payload → List Payload
payload_of (found value) values = value ∷ values
payload_of (refused reason) values = values

-- The payloads that a history of presentations obtains, in order.
pub redeemed : Platform → Env → List (Input × ℕ) → Storage Payload → List Payload
redeemed p env [] s = []
redeemed p env ((input, now) ∷ calls) s =
    payload_of (consume_if p env input now s).0
      (redeemed p env calls (consume_if p env input now s).1)
