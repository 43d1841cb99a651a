-- ===== src/Oauth/Scopes/Parse.antt =====
-- Printing and parsing scope strings.
-- About src/oauth/scopes.ts and src/oauth/scope-policy.ts.
use Prim.Native.Char.{code}
use Prim.Native.String
use text.Mathlib.TextLemmas.{nil-append, cons-append}
use keyforge.Prelude.{
  ℕ, String, ◌≡◌, refl, ap, ◌∙◌, true, false, not, ◌||◌, List, [], ◌∷◌, arith, ltb, eqb, any, all,
  filter, All, string_eq, option_eq, nat_eq, codes,
}
use keyforge.Oauth.Scopes.{
  valid, validate_scope_catalog, is_space, is_empty, fields, parse_scopes, join_after,
  serialize_scopes, is_scope_token, is_scope_character,
}

-- A word has a character, and no space.
abbrev pub NoSpace : String → Type 0
NoSpace String.[] = Unit
NoSpace (String.◌∷◌ c s) = (is_space (code c) ≡ false) × NoSpace s

abbrev pub IsWord : String → Type 0
IsWord w = NoSpace w × (is_empty w ≡ false)

fields_end : (w : String) → NoSpace w → fields w ≡ w ∷ []
unfolding fields
fields_end String.[] h = refl
fields_end (String.◌∷◌ c s) (h, hs) = rw (h, fields_end s hs)

fields_space :
    (w rest : String) → NoSpace w → fields (String.◌++◌ w (String.◌++◌ " " rest)) ≡ w ∷ fields rest
unfolding fields
fields_space String.[] rest h = rw (nil-append, cons-append, nil-append)
fields_space (String.◌∷◌ c s) rest (h, hs) =
    rw (cons-append, fields) (rw h (rw (fields_space s rest hs)))

fields-join :
    (w : String) (ws : List String) → NoSpace w → All IsWord ws → fields (join_after w ws) ≡ w ∷ ws
fields-join w [] h hs = fields_end w h
fields-join w (v ∷ vs) h (hv, hs) =
    fields_space w (join_after v vs) h ∙ ap (λ l. w ∷ l) (fields-join v vs hv.0 hs)

words_kept : (ws : List String) → All IsWord ws → filter (λ scope. not (is_empty scope)) ws ≡ ws
words_kept [] h = refl
words_kept (w ∷ ws) (h, hs) = rw (h.1, words_kept ws hs)

-- Parsing gives back every list of words that was printed with single spaces between them.
pub parse_scopes-serialize_scopes :
    (ws : List String) → All IsWord ws → parse_scopes (serialize_scopes ws) ≡ ws
unfolding parse_scopes serialize_scopes
parse_scopes-serialize_scopes [] h = refl
parse_scopes-serialize_scopes (w ∷ ws) (h, hs) =
    rw (fields-join w ws h.0 hs) (words_kept (w ∷ ws) (h, hs))

character-not_space : (c : ℕ) → is_scope_character c ≡ true → is_space c ≡ false
character-not_space c h = ground arith

token-NoSpace : (s : String) → all is_scope_character (codes s) ≡ true → NoSpace s
token-NoSpace String.[] h = tt
token-NoSpace (String.◌∷◌ c s) h =
    (character-not_space (code c) (ground arith), token-NoSpace s (ground arith))

token-IsWord : (s : String) → is_scope_token s ≡ true → IsWord s
token-IsWord String.[] h = absurd (ground arith)
token-IsWord (String.◌∷◌ c s) h = (token-NoSpace (String.◌∷◌ c s) (ground arith), refl)

all_tokens :
    (u : String → ℕ) (scopes : List String)
    → any (λ scope. not (is_scope_token scope) || eqb (u scope) 0 || ltb 128 (u scope)) scopes
      ≡ false
    → All IsWord scopes
all_tokens u [] h = tt
all_tokens u (x ∷ xs) h = (token-IsWord x (ground arith), all_tokens u xs (ground arith))

catalog_checked :
    (u : String → ℕ) (scopes accepted : List String)
    → validate_scope_catalog u scopes ≡ valid accepted
    → (accepted ≡ scopes)
      × (any (λ scope. not (is_scope_token scope) || eqb (u scope) 0 || ltb 128 (u scope)) scopes
          ≡ false)
unfolding validate_scope_catalog
catalog_checked u scopes accepted h = ground arith
