-- ===== src/Oauth/CodeGrant/Once.antt =====
-- How often a code is exchanged.
-- About src/oauth/token/authorization-code.ts.
use mathlib.Core.Path.{subst}
use keyforge.Prelude.{
  ◌≤◌, String, ◌≡◌, refl, sym, ◌∙◌, ◌⊎◌, inl, inr, Bool, true, false, Option, none, some, List, [],
  ◌∷◌, arith, eq_iff, if◌then◌else◌, Bool-cases, Option-cases, length, ◌==◌, string_eq, option_eq,
  nat_eq, beq_refl,
}
use keyforge.Security.Crypto.{Platform, hash_opaque_token}
use keyforge.Do.OneTime.{Storage, is_not_false}
use keyforge.Do.AuthorizationCode.{
  Payload, Input, Outcome, found, refused, Reason, not_found, binding, resource, pkce, consume_if,
}
use keyforge.Do.AuthorizationCode.Consume.{consume_if_storage, consume_if-spent}
use keyforge.Oauth.Errors.{Attempt, returned, thrown}
use keyforge.Oauth.Tokens.{TokenResponse, TokenInput}
use keyforge.Oauth.CodeGrant.{
  State, Request, presentation, put, check_grant, record_grant, issue_checked, answer_code,
  exchange, exchange_presented, handle_authorization_code,
}

-- The request presents a code of that name.
abbrev names : String → Platform → Option String → Bool
names name p none = false
names name p (some code) = hash_opaque_token p code == name

abbrev pub asks : String → Request → Bool
asks name q = names name q.platform q.code

abbrev pub response_of : Attempt TokenResponse → List TokenResponse → List TokenResponse
response_of (returned response) rest = response ∷ rest
response_of (thrown code) rest = rest

-- The responses to the requests that present a code of that name, in order, among all requests.
pub responses : String → List Request → State → List TokenResponse
responses name [] s = []
responses name (q ∷ requests) s =
    let rest = responses name requests (handle_authorization_code q s).1 in
    if asks name q then response_of (handle_authorization_code q s).0 rest else rest

-- The object of that name has handed out its payload.
abbrev IsSpent : String → State → Type 0
IsSpent name s = is_not_false (s.codes name).consumed ≡ true

recorded_codes :
    (input : TokenInput) (attempt : Attempt TokenResponse) (s : State)
    → (record_grant input attempt s).1.codes ≡ s.codes
unfolding record_grant
recorded_codes input (thrown code) s = refl
recorded_codes input (returned response) s = refl

issued_codes :
    (q : Request) (attempt : Attempt TokenInput) (s : State)
    → (issue_checked q attempt s).1.codes ≡ s.codes
unfolding issue_checked
issued_codes q (thrown code) s = refl
issued_codes q (returned input) s = recorded_codes input _ (record s { tokens = _ })

answered_codes :
    (q : Request) (outcome : Outcome) (s : State) → (answer_code q outcome s).1.codes ≡ s.codes
unfolding answer_code
answered_codes q (refused not_found) s = refl
answered_codes q (refused binding) s = refl
answered_codes q (refused resource) s = refl
answered_codes q (refused pkce) s = refl
answered_codes q (found grant) s = issued_codes q (check_grant q grant) s

answered-IsSpent :
    (q : Request) (outcome : Outcome) (name : String) (s : State)
    → IsSpent name s
    → IsSpent name (answer_code q outcome s).1
answered-IsSpent q outcome name s h = rw (answered_codes q outcome s) h

answered_refused :
    (q : Request) (reason : Reason) (s : State) (rest : List TokenResponse)
    → response_of (answer_code q (refused reason) s).0 rest ≡ rest
unfolding answer_code
answered_refused q not_found s rest = refl
answered_refused q binding s rest = refl
answered_refused q resource s rest = elim (Option-cases q.resource) [
  | inl missing ↦ rw missing refl
  | inr (presented, given) ↦ rw given refl
]
answered_refused q pkce s rest = refl

-- A call of an object leaves it as it was, or spent.
consumed_cases :
    (q : Request) (input : Input) (storage : Storage Payload)
    → ((consume_if q.platform q.env input q.now storage).1 ≡ storage)
      ⊎ (is_not_false (consume_if q.platform q.env input q.now storage).1.consumed ≡ true)
consumed_cases q input storage = elim (consume_if_storage q.platform q.env input q.now storage) [
  | inl (_, same) ↦ inl same
  | inr (_, marked) ↦ inr (rw marked refl)
]

put-IsSpent :
    (q : Request) (name own : String) (input : Input) (s : State)
    → IsSpent name s
    → is_not_false
        (put own (consume_if q.platform q.env input q.now (s.codes own)).1 s.codes name).consumed
      ≡ true
put-IsSpent q name own input s h = elim (Bool-cases (name == own)) [
  | inr other ↦ rw other h
  | inl same ↦
      let e : name ≡ own = (eq_iff name own).0 same in
      rw same (elim (consumed_cases q input (s.codes own)) [
        | inl kept ↦ rw kept (subst (λ x. is_not_false (s.codes x).consumed ≡ true) e h)
        | inr spent ↦ spent
      ])
]

presented-IsSpent :
    (q : Request) (name : String) (c r v : Option String) (s : State)
    → IsSpent name s
    → IsSpent name (exchange_presented q c r v s).1
unfolding exchange_presented exchange
presented-IsSpent q name (some c) (some r) (some v) s h =
    let own : String = hash_opaque_token q.platform c in
    let result = consume_if q.platform q.env (presentation q r v) q.now (s.codes own) in
    answered-IsSpent q result.0 name (record s { codes = put own result.1 s.codes })
      (put-IsSpent q name own (presentation q r v) s h)
presented-IsSpent q name none r v s h = h
presented-IsSpent q name (some c) none v s h = h
presented-IsSpent q name (some c) (some r) none s h = h

-- A request for a spent code gets nothing.
presented_none :
    (q : Request) (name : String) (c r v : Option String) (s : State) (rest : List TokenResponse)
    → IsSpent name s
    → names name q.platform c ≡ true
    → response_of (exchange_presented q c r v s).0 rest ≡ rest
unfolding exchange_presented exchange answer_code
presented_none q name (some c) (some r) (some v) s rest h own =
    let e = (eq_iff (hash_opaque_token q.platform c) name).0 own in
    rw
      (consume_if-spent q.platform q.env (presentation q r v) q.now
        (s.codes (hash_opaque_token q.platform c))
        (subst (λ x. is_not_false (s.codes x).consumed ≡ true) (sym e) h))
      refl
presented_none q name none r v s rest h own = refl
presented_none q name (some c) none v s rest h own = refl
presented_none q name (some c) (some r) none s rest h own = refl

-- A request for a code gets nothing, or leaves the code spent.
presented_once :
    (q : Request) (name : String) (c r v : Option String) (s : State)
    → names name q.platform c ≡ true
    → ((rest : List TokenResponse) → response_of (exchange_presented q c r v s).0 rest ≡ rest)
      ⊎ IsSpent name (exchange_presented q c r v s).1
unfolding exchange_presented exchange
presented_once q name (some c) (some r) (some v) s own =
    let name' : String = hash_opaque_token q.platform c in
    let result = consume_if q.platform q.env (presentation q r v) q.now (s.codes name') in
    let s' : State = record s { codes = put name' result.1 s.codes } in
    elim (consume_if_storage q.platform q.env (presentation q r v) q.now (s.codes name')) [
      | inl ((reason, e), _) ↦ inl (λ rest. rw e (answered_refused q reason _ rest))
      | inr (_, marked) ↦ inr (
          answered-IsSpent q result.0 name s'
            (rw (sym ((eq_iff name' name).0 own), beq_refl name', marked) refl))
    ]
presented_once q name none r v s own = inl (λ rest. refl)
presented_once q name (some c) none v s own = inl (λ rest. refl)
presented_once q name (some c) (some r) none s own = inl (λ rest. refl)

responses_none :
    (name : String) (requests : List Request) (s : State)
    → IsSpent name s
    → responses name requests s ≡ []
unfolding responses handle_authorization_code
responses_none name [] s h = refl
responses_none name (q ∷ requests) s h =
    let after : State = (exchange_presented q q.code q.redirect_uri q.code_verifier s).1 in
    let later =
      responses_none name requests after
        (presented-IsSpent q name q.code q.redirect_uri q.code_verifier s h) in
    elim (Bool-cases (asks name q)) [
      | inr other ↦ rw other later
      | inl own ↦
          rw own (presented_none q name q.code q.redirect_uri q.code_verifier s _ h own ∙ later)
    ]

at_most_one : (a : Attempt TokenResponse) → length (response_of a []) ≤ 1
at_most_one (returned response) = omega arith
at_most_one (thrown code) = omega arith

-- However many requests of whatever clients present an authorization code, and whatever requests come
-- between them, at most one of them is answered with tokens.
pub responses_once :
    (name : String) (requests : List Request) (s : State) → length (responses name requests s) ≤ 1
unfolding responses handle_authorization_code
responses_once name [] s = omega arith
responses_once name (q ∷ requests) s =
    let here = exchange_presented q q.code q.redirect_uri q.code_verifier s in
    let later = responses_once name requests here.1 in
    elim (Bool-cases (asks name q)) [
      | inr other ↦ rw other later
      | inl own ↦ elim (presented_once q name q.code q.redirect_uri q.code_verifier s own) [
        | inl none_here ↦ rw (own, none_here (responses name requests here.1)) later
        | inr spent ↦ rw (own, responses_none name requests here.1 spent) (at_most_one here.0)
      ]
    ]
