-- ===== src/Utils/Random/Tests.antt =====
-- A code drawn in two rounds, the second of which makes up for a rejected byte.
-- About src/utils/random.ts.
use keyforge.Prelude.{
  ℕ, ◌*◌, ◌≡◌, refl, none, some, List, [], ◌∷◌, ltb, if◌then◌else◌, length, take, codes,
}
use keyforge.Utils.Random.{
  user_code_alphabet, alphabet_length, produce, user_code_of, generate_user_code,
}
use keyforge.Utils.Random.Finished.{concat, letters, generate_user_code-letters}

abbrev rounds : List (List ℕ)
rounds = (0 ∷ 250 ∷ 2 ∷ 3 ∷ []) ∷ (34 ∷ 5 ∷ 6 ∷ 7 ∷ []) ∷ []

letters_counted : length (codes user_code_alphabet) ≡ alphabet_length
letters_counted = refl

drawn : generate_user_code 2 2 rounds ≡ some "AC-DD"
unfolding generate_user_code produce
drawn = refl

generate_user_code-letters_example : generate_user_code 2 2 rounds ≡ (
    if ltb (length (letters (concat rounds))) (2 * 2)
    then none
    else some (user_code_of 2 2 (take (2 * 2) (letters (concat rounds)))))
generate_user_code-letters_example = generate_user_code-letters 2 2 rounds
