-- ===== src/Oauth/RequestLimits/Tests.antt =====
-- One request within the limits.
-- About src/oauth/request-limits.ts.
use keyforge.Prelude.{String, ◌≡◌, ◌≤◌, refl, none, List, [], ◌∷◌, length, All, string_eq, codes}
use keyforge.Security.Crypto.{Platform}
use keyforge.Security.Crypto.Sample.{sample}
use keyforge.Oauth.RequestLimits.{
  oauth_form_max_parameters, is_valid_oauth_client_id, oauth_parameter_maximum_bytes,
  validate_oauth_parameter, validate_from, validate_oauth_parameter_set,
}
use keyforge.Oauth.RequestLimits.Accepted.{
  total_bytes, Fits, validate_oauth_parameter_set-IsBounded,
}

abbrev platform : Platform
platform = record sample { utf8 = codes }

abbrev parameters : List (String × String)
parameters = ("client_id", "app") ∷ ("scope", "read") ∷ []

passes : validate_oauth_parameter_set platform (λ raw. none) parameters ≡ none
unfolding validate_oauth_parameter_set validate_from validate_oauth_parameter
    oauth_parameter_maximum_bytes is_valid_oauth_client_id
passes = refl

validate_oauth_parameter_set-IsBounded_example :
    length parameters ≤ oauth_form_max_parameters
    × All (Fits platform (λ raw. none)) parameters
    × total_bytes platform parameters ≤ 526336
validate_oauth_parameter_set-IsBounded_example =
    validate_oauth_parameter_set-IsBounded platform (λ raw. none) parameters passes
