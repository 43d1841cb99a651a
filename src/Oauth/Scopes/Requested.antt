-- ===== src/Oauth/Scopes/Requested.antt =====
-- Requested scopes and the allowed ones.
-- About src/oauth/scopes.ts and src/oauth/scope-policy.ts.
use keyforge.Prelude.{
  String, ◌≡◌, ◌↔◌, ◌⊎◌, true, false, not, List, [], ◌∷◌, arith, ltb, length, filter, All, includes,
  string_eq, option_eq, nat_eq,
}
use keyforge.Oauth.Errors.{returned, thrown, invalid_scope}
use keyforge.Oauth.Scopes.{validate_requested_scopes}

-- Every item of the first list is in the second.
abbrev pub IsSubset : List String → List String → Type 0
IsSubset xs ys = All (λ x. includes ys x ≡ true) xs

disallowed_none :
    (requested allowed : List String)
    → (ltb 0 (length (filter (λ scope. not (includes allowed scope)) requested)) ≡ false)
      ↔ IsSubset requested allowed
disallowed_none [] allowed = ground arith
disallowed_none (x ∷ xs) allowed = ground (arith, disallowed_none xs allowed)

-- Requested scopes pass unchanged if all of them are allowed.
pub validate_requested_scopes_subset :
    (requested allowed : List String)
    → IsSubset requested allowed
    → validate_requested_scopes requested allowed ≡ returned requested
unfolding validate_requested_scopes
validate_requested_scopes_subset requested allowed h = rw ((disallowed_none requested allowed).1 h)

-- What passes are the requested scopes, all of them allowed.
pub validate_requested_scopes_ok :
    (requested allowed scopes : List String)
    → validate_requested_scopes requested allowed ≡ returned scopes
    → (scopes ≡ requested) × IsSubset requested allowed
unfolding validate_requested_scopes
validate_requested_scopes_ok requested allowed scopes h =
    (ground arith, (disallowed_none requested allowed).0 (ground arith))

-- The only error is invalid_scope.
pub validate_requested_scopes_err :
    (requested allowed : List String)
    → (validate_requested_scopes requested allowed ≡ returned requested)
      ⊎ (validate_requested_scopes requested allowed ≡ thrown invalid_scope)
unfolding validate_requested_scopes
validate_requested_scopes_err requested allowed = ground arith
