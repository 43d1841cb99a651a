-- ===== src/Utils/Random.antt =====
-- `generateUserCode` of src/utils/random.ts. The arrays that `crypto.getRandomValues` fills, one for each
-- round of the loop, are an argument; the loop that uses all of them up answers `none`.
pub mod Finished
pub mod Tests
use Prim.Native.String
use keyforge.Prelude.{
  ℕ, zero, suc, ◌+◌, ◌-◌, ◌*◌, ◌/◌, ◌%◌, String, Option, none, some, List, [], ◌∷◌, ◌++◌, ltb, leb,
  if◌then◌else◌, length, take,
}

abbrev pub user_code_alphabet : String
user_code_alphabet = "ABCDEFGHJKLMNPQRSTVWXYZ23456789"

abbrev char_at : String → ℕ → String
char_at String.[] n = String.[]
char_at (String.◌∷◌ c s) zero = String.◌∷◌ c String.[]
char_at (String.◌∷◌ c s) (suc n) = char_at s n

-- `alphabetLen`.
abbrev pub alphabet_length : ℕ
alphabet_length = 31

-- `Math.floor(256 / alphabetLen) * alphabetLen`: bytes from here on are rejected.
abbrev pub maximum_byte : ℕ
maximum_byte = 256 / alphabet_length * alphabet_length

abbrev pub letter : ℕ → String
letter byte = char_at user_code_alphabet (byte % alphabet_length)

-- One pass over an array; `produced` is the length of what is there.
fill : (total : ℕ) → List ℕ → List String → List String
fill total [] chars = chars
fill total (byte ∷ bytes) chars =
    let more = fill total bytes (chars ++ (letter byte ∷ [])) in
    let same = fill total bytes chars in
    if leb total (length chars) then chars else if ltb byte maximum_byte then more else same

pub produce : (total : ℕ) → (rounds : List (List ℕ)) → List String → Option (List String)
unfolding fill
produce total [] chars = if ltb (length chars) total then none else some chars
produce total (bytes ∷ rounds) chars =
    let rest = produce total rounds (fill total bytes chars) in
    if ltb (length chars) total then rest else some chars

abbrev pub drop : ℕ → List String → List String
drop zero chars = chars
drop (suc n) [] = []
drop (suc n) (char ∷ chars) = drop n chars

abbrev join : List String → String
join [] = String.[]
join (char ∷ chars) = String.◌++◌ char (join chars)

-- The segments, one after another.
abbrev segments : (groups group_size : ℕ) → List String → List String
segments zero group_size chars = []
segments (suc groups) group_size chars =
    join (take group_size chars) ∷ segments groups group_size (drop group_size chars)

abbrev join_after : String → List String → String
join_after s [] = s
join_after s (t ∷ rest) = String.◌++◌ s (String.◌++◌ "-" (join_after t rest))

abbrev join_dashes : List String → String
join_dashes [] = String.[]
join_dashes (s ∷ rest) = join_after s rest

abbrev pub user_code_of : (groups group_size : ℕ) → List String → String
user_code_of groups group_size chars = join_dashes (segments groups group_size chars)

abbrev format : (groups group_size : ℕ) → Option (List String) → Option String
format groups group_size none = none
format groups group_size (some chars) = some (user_code_of groups group_size chars)

pub generate_user_code : (groups group_size : ℕ) → (rounds : List (List ℕ)) → Option String
unfolding produce
generate_user_code groups group_size rounds =
    format groups group_size (produce (groups * group_size) rounds [])
