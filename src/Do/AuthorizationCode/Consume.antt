-- ===== src/Do/AuthorizationCode/Consume.antt =====
-- When an authorization code is redeemed, how often, and what a refusal leaves behind.
-- About src/do/AuthorizationCodeDO.ts.
use keyforge.Prelude.{
  ℕ, ◌≡◌, ◌↔◌, refl, ◌⊎◌, inl, inr, String, Bool, true, false, Option, none, some, List, [], ◌∷◌,
  arith, eq_iff, option_beq_iff, string_eq, Bool-cases, ap, sym, ◌||◌,
}
use mathlib.Core.Path.{subst}
use keyforge.Env.{Env, is_yolo_enabled}
use keyforge.Security.Crypto.{Platform, IsEncoding}
use keyforge.Security.Crypto.Comparison.{timing_safe_equal_string_iff}
use keyforge.Oauth.Pkce.{is_valid_code_verifier, compute_s256_challenge}
use keyforge.Do.OneTime.{Storage, is_not_false, is_over}
use keyforge.Do.AuthorizationCode.{
  Payload, Input, Outcome, Reason, found, refused, not_found, differs, resource_differs,
  proof_fails, judge, judge_value, settle, consume_if, redeemed,
}

-- The bindings that a presentation has to meet.
pub record Matches (value : Payload) (input : Input) : Type 0 where
  pub issuer : value.issuer ≡ input.issuer
  pub client_id : value.client_id ≡ input.client_id
  pub redirect_uri : value.redirect_uri ≡ input.redirect_uri
  pub metadata_fingerprint : value.metadata_fingerprint ≡ input.metadata_fingerprint

-- The presented resource, which may be left out unless the code demands it.
abbrev pub MatchesResource : Payload → Option String → Type 0
MatchesResource value presented =
    ((presented ≡ none) × (value.resource_required ≡ false)) ⊎ (presented ≡ some value.resource)

pub record MatchesProof (p : Platform) (value : Payload) (verifier : String) : Type 0 where
  pub valid : is_valid_code_verifier verifier ≡ true
  pub same : compute_s256_challenge p verifier ≡ value.code_challenge

differs_iff :
    (value : Payload) (input : Input) → (differs value input ≡ false) ↔ Matches value input
unfolding differs
differs_iff value input = ground (
  arith,
  eq_iff value.issuer input.issuer,
  eq_iff value.client_id input.client_id,
  eq_iff value.redirect_uri input.redirect_uri,
  option_beq_iff value.metadata_fingerprint input.metadata_fingerprint,
)

resource_differs_iff :
    (value : Payload) (presented : Option String)
    → (resource_differs value presented ≡ false) ↔ MatchesResource value presented
unfolding resource_differs
resource_differs_iff value none = ground arith
resource_differs_iff value (some r) = ground (arith, eq_iff value.resource r)

proof_fails_iff :
    (p : Platform) (value : Payload) (verifier : String)
    → IsEncoding p
    → (proof_fails p value verifier ≡ false) ↔ MatchesProof p value verifier
unfolding proof_fails
proof_fails_iff p value verifier e = ground (
  arith,
  timing_safe_equal_string_iff p (compute_s256_challenge p verifier) value.code_challenge e,
)

-- The value is there, not consumed, and not past its expiry.
pub record IsLive (s : Storage Payload) (now : ℕ) (value : Payload) : Type 0 where
  pub fresh : s.consumed ≡ some false
  pub in_time : is_over s.expires_at now ≡ false
  pub stored : s.value ≡ some value

-- What the presentation has to prove, unless the mode that skips validation is on.
abbrev pub IsEntitled : Platform → Env → Payload → Input → Type 0
IsEntitled p env value input =
    (is_yolo_enabled env ≡ true)
    ⊎ (Matches value input
        × MatchesResource value input.resource
        × MatchesProof p value input.code_verifier)

judge_iff :
    (p : Platform) (env : Env) (input : Input) (stored value : Payload)
    → IsEncoding p
    → (judge p (is_yolo_enabled env) input stored ≡ found value)
      ↔ ((stored ≡ value) × IsEntitled p env stored input)
unfolding judge
judge_iff p env input stored value e = elim (Bool-cases (is_yolo_enabled env)) [
  | inl on ↦ ground (arith, on)
  | inr off ↦
      (let a = differs_iff stored input in
        let b = resource_differs_iff stored input.resource in
        let c = proof_fails_iff p stored input.code_verifier e in
        ground (arith, off, a.0, a.1, b.0, b.1, c.0, c.1))
]

judge_value_iff :
    (p : Platform) (env : Env) (input : Input) (stored : Option Payload) (value : Payload)
    → IsEncoding p
    → (judge_value p (is_yolo_enabled env) input stored ≡ found value)
      ↔ ((stored ≡ some value) × IsEntitled p env value input)
unfolding judge_value
judge_value_iff p env input none value e = (λ h. cc, λ h. cc (h.0))
judge_value_iff p env input (some stored) value e =
    let (to, from) = judge_iff p env input stored value e in
    (
      λ h. (ap some (to h).0, subst (λ v. IsEntitled p env v input) (to h).0 (to h).1),
      λ h. from (back h),
    )
  where
    back :
        (some stored ≡ some value) × IsEntitled p env value input
        → (stored ≡ value) × IsEntitled p env stored input
    back h =
        let same : stored ≡ value = cc (h.0) in
        (same, subst (λ v. IsEntitled p env v input) (sym same) h.1)

settle_found : (o : Outcome) (s : Storage Payload) → (settle o s).0 ≡ o
unfolding settle
settle_found (found value) s = refl
settle_found (refused reason) s = refl

-- A presentation obtains a payload exactly if that payload is stored, neither consumed nor expired,
-- and the presentation meets the issuer, the client, the redirect URI, the metadata fingerprint,
-- the resource and the PKCE proof bound to it; with the mode that skips validation on, the
-- bindings are not asked for, and the rest is.
pub consume_if-found_iff :
    (p : Platform) (env : Env) (input : Input) (now : ℕ) (s : Storage Payload) (value : Payload)
    → IsEncoding p
    → ((consume_if p env input now s).0 ≡ found value)
      ↔ (IsLive s now value × IsEntitled p env value input)
unfolding consume_if
consume_if-found_iff p env input now s value e =
    let (to, from) = judge_value_iff p env input s.value value e in
    ground (arith, to, from, settle_found (judge_value p (is_yolo_enabled env) input s.value) s)

judge_found :
    (p : Platform) (yolo : Bool) (input : Input) (stored : Payload) {value : Payload}
    → judge p yolo input stored ≡ found value
    → stored ≡ value
unfolding judge
judge_found p yolo input stored h = ground arith

judge_value_found :
    (p : Platform) (yolo : Bool) (input : Input) (stored : Option Payload) {value : Payload}
    → judge_value p yolo input stored ≡ found value
    → stored ≡ some value
unfolding judge_value
judge_value_found p yolo input none h = cc
judge_value_found p yolo input (some stored) h = ap some (judge_found p yolo input stored h)

Outcome-cases :
    (o : Outcome)
    → ((reason : Reason) × (o ≡ refused reason)) ⊎ ((value : Payload) × (o ≡ found value))
Outcome-cases (refused reason) = inl (reason, refl)
Outcome-cases (found value) = inr (value, refl)

-- A refused presentation leaves the stored code as it was, so a wrong guess burns nothing; one that
-- obtains the payload marks it consumed and changes nothing else.
pub consume_if_storage :
    (p : Platform) (env : Env) (input : Input) (now : ℕ) (s : Storage Payload)
    → (((reason : Reason) × ((consume_if p env input now s).0 ≡ refused reason))
        × ((consume_if p env input now s).1 ≡ s))
      ⊎ (((value : Payload) × ((consume_if p env input now s).0 ≡ found value)
            × (s.value ≡ some value))
          × ((consume_if p env input now s).1 ≡ record s { consumed = some true }))
unfolding consume_if settle
consume_if_storage p env input now s =
    elim (Bool-cases (is_not_false s.consumed || is_over s.expires_at now)) [
      | inl gone ↦ inl ((not_found, rw gone), rw gone)
      | inr live ↦ elim (Outcome-cases (judge_value p (is_yolo_enabled env) input s.value)) [
        | inl (reason, e) ↦ inl ((reason, rw (live, e, settle)), rw (live, e, settle))
        | inr (value, e) ↦ inr (
          (value, rw (live, e, settle), judge_value_found p (is_yolo_enabled env) input s.value e),
          rw (live, e, settle),
        )
      ]
    ]

redeemed_consumed :
    (p : Platform) (env : Env) (calls : List (Input × ℕ)) (s : Storage Payload)
    → is_not_false s.consumed ≡ true
    → redeemed p env calls s ≡ []
unfolding redeemed consume_if
redeemed_consumed p env [] s h = refl
redeemed_consumed p env ((input, now) ∷ calls) s h =
    ground (arith, redeemed_consumed p env calls s h)

-- However many presentations race for one stored code, with whatever inputs and in whatever order,
-- and also with the mode that skips validation on, they obtain nothing or its payload once.
pub redeemed_once :
    (p : Platform) (env : Env) (calls : List (Input × ℕ)) (s : Storage Payload)
    → (redeemed p env calls s ≡ [])
      ⊎ ((value : Payload) × (s.value ≡ some value) × (redeemed p env calls s ≡ value ∷ []))
unfolding redeemed
redeemed_once p env [] s = inl refl
redeemed_once p env ((input, now) ∷ calls) s = elim (consume_if_storage p env input now s) [
  | inl ((reason, r), same) ↦ rw (r, same) (redeemed_once p env calls s)
  | inr ((value, f, stored), marked) ↦ inr (
    value,
    stored,
    rw (f, marked, redeemed_consumed p env calls (record s { consumed = some true }) refl),
  )
]

pub consume_if-found :
    (p : Platform) (env : Env) (input : Input) (now : ℕ) (s : Storage Payload) (value : Payload)
    → (consume_if p env input now s).0 ≡ found value
    → (consume_if p env input now s).1 ≡ record s { consumed = some true }
consume_if-found p env input now s value h = elim (consume_if_storage p env input now s) [
  | inl ((reason, r), same) ↦ cc
  | inr (_, marked) ↦ marked
]

pub consume_if-spent :
    (p : Platform) (env : Env) (input : Input) (now : ℕ) (s : Storage Payload)
    → is_not_false s.consumed ≡ true
    → consume_if p env input now s ≡ (refused not_found, s)
unfolding consume_if
consume_if-spent p env input now s h = ground (arith, h)
