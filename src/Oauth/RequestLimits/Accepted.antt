-- ===== src/Oauth/RequestLimits/Accepted.antt =====
-- What the limits on the parameters of a request let through.
-- About src/oauth/request-limits.ts.
use keyforge.Prelude.{
  ℕ, ◌+◌, ◌*◌, ◌≤◌, String, ◌≡◌, refl, ◌⊎◌, inl, inr, Bool, true, false, not, ◌&&◌, ◌||◌, none,
  List, [], ◌∷◌, arith, ltb, leb, Bool-cases, Option-cases, length, all, All, ◌==◌, string_eq,
  option_eq, nat_eq, codes,
}
use keyforge.Security.Crypto.{Platform}
use keyforge.Oauth.Redirect.{ParseUrl}
use keyforge.Oauth.RequestLimits.{
  byte_length, oauth_form_max_parameters, oauth_parameter_name_max_bytes,
  oauth_parameter_default_max_bytes, oauth_parameter_max_bytes, lookup_or,
  oauth_parameter_maximum_bytes, is_invalid_name, is_valid_oauth_client_id, is_continuation,
  is_short, validate_oauth_parameter, validate_from, validate_oauth_parameter_set,
}

-- The bytes of the names and values.
abbrev pub total_bytes : Platform → List (String × String) → ℕ
total_bytes p [] = 0
total_bytes p ((name, value) ∷ rest) = byte_length p name + byte_length p value + total_bytes p rest

-- Each parameter passes by itself, and its value keeps the limit of its name.
abbrev pub Fits : Platform → ParseUrl → (String × String) → Type 0
Fits p parse parameter =
    (validate_oauth_parameter p parse parameter.0 parameter.1 ≡ none)
    × byte_length p parameter.0 ≤ oauth_parameter_name_max_bytes
    × byte_length p parameter.1 ≤ oauth_parameter_maximum_bytes parameter.0

lookup_bounded :
    (bound default : ℕ) (name : String) (table : List (String × ℕ))
    → default ≤ bound
    → all (λ entry. leb entry.1 bound) table ≡ true
    → lookup_or default name table ≤ bound
lookup_bounded bound default name [] d fits = d
lookup_bounded bound default name ((key, n) ∷ rest) d fits =
    ground (arith, fits, lookup_bounded bound default name rest d)

maximum_bounded : (name : String) → oauth_parameter_maximum_bytes name ≤ 16384
unfolding oauth_parameter_maximum_bytes
maximum_bounded name =
    lookup_bounded 16384 oauth_parameter_default_max_bytes name oauth_parameter_max_bytes
      (omega arith) refl

second-false : (a c : Bool) (m n : ℕ) → (a || ltb m n || c) ≡ false → n ≤ m
second-false a c m n h = ground (arith, h)

second-true : (a : Bool) (m n : ℕ) → (a && leb m n) ≡ true → m ≤ n
second-true a m n h = ground (arith, h)

parameter-Fits :
    (p : Platform) (parse : ParseUrl) (name value : String)
    → validate_oauth_parameter p parse name value ≡ none
    → Fits p parse (name, value)
unfolding validate_oauth_parameter
parameter-Fits p parse name value h = elim (Bool-cases (is_invalid_name p name)) [
  | inl misnamed ↦ cc (rw misnamed at h)
  | inr named ↦
      elim (Bool-cases (name == "client_id" && not (is_valid_oauth_client_id p parse value))) [
        | inl other ↦ cc (rw (named, other) at h)
        | inr client ↦
            elim (Bool-cases (name == "_keyforge_reauth" && not (is_continuation (codes value)))) [
              | inl other ↦ cc (rw (named, client, other) at h)
              | inr reauth ↦ elim (Bool-cases (is_short p name value)) [
                | inr long ↦ cc (rw (named, client, reauth, long) at h)
                | inl short ↦ (h, second-false _ _ _ _ named, second-true _ _ _ short)
              ]
            ]
      ]
]

all_fit :
    (p : Platform) (parse : ParseUrl) (count : ℕ) (parameters : List (String × String))
    → validate_from p parse count parameters ≡ none
    → All (Fits p parse) parameters
      × ((parameters ≡ []) ⊎ (count + length parameters ≤ oauth_form_max_parameters))
unfolding validate_from
all_fit p parse count [] h = (tt, inl refl)
all_fit p parse count ((name, value) ∷ rest) h =
    elim (Bool-cases (ltb oauth_form_max_parameters (count + 1))) [
      | inl many ↦ cc (rw many at h)
      | inr few ↦ elim (Option-cases (validate_oauth_parameter p parse name value)) [
        | inr (failure, e) ↦ cc (rw (few, e) at h)
        | inl fine ↦
            let (fits, more) = all_fit p parse (count + 1) rest (rw (few, fine) at h) in
            (
              (parameter-Fits p parse name value fine, fits),
              elim more [
                | inl last ↦ inr (rw last (ground (arith, few)))
                | inr others ↦ inr (omega (arith, others))
              ],
            )
      ]
    ]

total_bounded :
    (p : Platform) (parse : ParseUrl) (parameters : List (String × String))
    → All (Fits p parse) parameters
    → total_bytes p parameters ≤ length parameters * 16448
total_bounded p parse [] fits = omega arith
total_bounded p parse ((name, value) ∷ rest) (fit, fits) =
    omega (arith, fit.1, fit.2, maximum_bounded name, total_bounded p parse rest fits)

-- Parameters that validation lets through are no more than the maximum, each passes by itself and keeps
-- within the limits of its name, and all of them together have at most 526336 bytes.
pub validate_oauth_parameter_set-IsBounded :
    (p : Platform) (parse : ParseUrl) (parameters : List (String × String))
    → validate_oauth_parameter_set p parse parameters ≡ none
    → length parameters ≤ oauth_form_max_parameters
      × All (Fits p parse) parameters
      × total_bytes p parameters ≤ 526336
unfolding validate_oauth_parameter_set
validate_oauth_parameter_set-IsBounded p parse parameters h =
    let (fits, few) = all_fit p parse 0 parameters h in
    let short : length parameters ≤ oauth_form_max_parameters = elim few [
      | inl no_one ↦ rw no_one (omega arith)
      | inr counted ↦ omega (arith, counted)
    ] in
    (short, fits, omega (arith, short, total_bounded p parse parameters fits))
