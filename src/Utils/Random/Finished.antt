-- ===== src/Utils/Random/Finished.antt =====
-- When the loop ends, and which code it yields.
-- About src/utils/random.ts.
use mathlib.Core.Path.{subst}
use keyforge.Prelude.{
  ℕ, zero, suc, ◌+◌, ◌*◌, ◌≤◌, String, ◌≡◌, refl, sym, ap, ◌∙◌, inl, inr, Bool, false, Option, none,
  some, List, [], ◌∷◌, ◌++◌, map, arith, ltb, leb, if◌then◌else◌, Bool-cases, length, filter,
  string_eq, option_eq, nat_eq, length-append, take, length-take,
}
use mathlib.Core.List.{append_assoc, append-nil}
use keyforge.Utils.Random.{
  maximum_byte, letter, fill, produce, user_code_of, generate_user_code, format,
}

-- The bytes that are not rejected.
abbrev pub is_accepted : ℕ → Bool
is_accepted byte = ltb byte maximum_byte

abbrev pub concat : List (List ℕ) → List ℕ
concat [] = []
concat (bytes ∷ rounds) = bytes ++ concat rounds

abbrev pub letters : List ℕ → List String
letters bytes = map letter (filter is_accepted bytes)

abbrev pick : ℕ → List String → Option (List String)
pick total chars = if ltb (length chars) total then none else some (take total chars)

take_all : (n : ℕ) (xs ys : List String) → length xs ≡ n → take n (xs ++ ys) ≡ xs
take_all zero [] ys h = refl
take_all (suc n) [] ys h = absurd (omega (arith, h))
take_all zero (x ∷ xs) ys h = absurd (omega (arith, h))
take_all (suc n) (x ∷ xs) ys h = ap (λ rest. x ∷ rest) (take_all n xs ys (omega (arith, h)))

take_few : (n : ℕ) (xs : List String) → length xs ≤ n → take n xs ≡ xs
take_few zero [] h = refl
take_few (suc n) [] h = refl
take_few zero (x ∷ xs) h = absurd (omega (arith, h))
take_few (suc n) (x ∷ xs) h = ap (λ rest. x ∷ rest) (take_few n xs (omega (arith, h)))

take_append : (n : ℕ) (xs ys : List String) → take n (take n xs ++ ys) ≡ take n (xs ++ ys)
take_append zero xs ys = refl
take_append (suc n) [] ys = refl
take_append (suc n) (x ∷ xs) ys = ap (λ rest. x ∷ rest) (take_append n xs ys)

pick_append : (n : ℕ) (xs ys : List String) → pick n (take n xs ++ ys) ≡ pick n (xs ++ ys)
pick_append n xs ys =
    let same : ltb (length (take n xs ++ ys)) n ≡ ltb (length (xs ++ ys)) n =
      ground (arith, length-append (take n xs) ys, length-append xs ys, length-take n xs) in
    rw (same, take_append n xs ys) refl

letters_append : (xs ys : List ℕ) → letters (xs ++ ys) ≡ letters xs ++ letters ys
letters_append [] ys = refl
letters_append (x ∷ xs) ys = elim (Bool-cases (is_accepted x)) [
  | inl in_range ↦ rw in_range (ap (λ rest. letter x ∷ rest) (letters_append xs ys))
  | inr over ↦ rw over (letters_append xs ys)
]

exactly : (total n : ℕ) → n ≤ total → ltb n total ≡ false → n ≡ total
exactly total n h all_there = ground (arith, h, all_there)

pick_full : (total : ℕ) (xs ys : List String) → length xs ≡ total → pick total (xs ++ ys) ≡ some xs
pick_full total xs ys h =
    let enough : ltb (length (xs ++ ys)) total ≡ false = ground (arith, length-append xs ys, h) in
    rw enough (ap some (take_all total xs ys h))

room_left : (total n : ℕ) → leb total n ≡ false → n + 1 ≤ total
room_left total n h = ground (arith, h)

fill-letters :
    (total : ℕ) (bytes : List ℕ) (chars : List String)
    → length chars ≤ total
    → fill total bytes chars ≡ take total (chars ++ letters bytes)
unfolding fill
fill-letters total [] chars h =
    sym (take_few total (chars ++ []) (rw (append-nil chars) h) ∙ append-nil chars)
fill-letters total (byte ∷ bytes) chars h = elim (Bool-cases (leb total (length chars))) [
  | inl full ↦
      rw full (sym (take_all total chars (letters (byte ∷ bytes)) (ground (arith, h, full))))
  | inr room ↦ elim (Bool-cases (is_accepted byte)) [
    | inl in_range ↦
        rw (room, in_range)
          (fill-letters total bytes (chars ++ (letter byte ∷ [])) (
              omega (
                arith,
                length-append chars (letter byte ∷ []),
                room_left total (length chars) room,
              ))
            ∙ ap (take total) (append_assoc chars (letter byte ∷ []) (letters bytes)))
    | inr over ↦ rw (room, over) (fill-letters total bytes chars h)
  ]
]

produce-letters :
    (total : ℕ) (rounds : List (List ℕ)) (chars : List String)
    → length chars ≤ total
    → produce total rounds chars ≡ pick total (chars ++ letters (concat rounds))
unfolding produce
produce-letters total [] chars h = elim (Bool-cases (ltb (length chars) total)) [
  | inl few ↦ rw (append-nil chars, few) refl
  | inr all_there ↦ rw (append-nil chars, all_there) (ap some (sym (take_few total chars h)))
]
produce-letters total (bytes ∷ rounds) chars h = elim (Bool-cases (ltb (length chars) total)) [
  | inl few ↦ rw few (
      produce-letters total rounds (fill total bytes chars) (
        subst (λ cs. length cs ≤ total) (sym (fill-letters total bytes chars h))
          (omega (arith, length-take total (chars ++ letters bytes))))
      ∙ ap (λ filled. pick total (filled ++ letters (concat rounds)))
          (fill-letters total bytes chars h)
      ∙ pick_append total (chars ++ letters bytes) (letters (concat rounds))
      ∙ ap (pick total) (
          append_assoc chars (letters bytes) (letters (concat rounds))
          ∙ ap (λ rest. chars ++ rest) (sym (letters_append bytes (concat rounds)))))
  | inr all_there ↦ rw all_there (
      sym (
        pick_full total chars (letters (bytes ++ concat rounds))
          (exactly total (length chars) h all_there)))
]

-- The loop ends with the rounds that it is given exactly if they hold as many bytes that are not rejected
-- as the code has letters; the code is then made of the first of these bytes, in their order.
pub generate_user_code-letters :
    (groups group_size : ℕ) (rounds : List (List ℕ))
    → generate_user_code groups group_size rounds ≡ (
        if ltb (length (letters (concat rounds))) (groups * group_size)
        then none
        else some
            (user_code_of groups group_size (take (groups * group_size) (letters (concat rounds)))))
unfolding generate_user_code
generate_user_code-letters groups group_size rounds =
    ap (format groups group_size) (produce-letters (groups * group_size) rounds [] (omega arith))
    ∙ elim (Bool-cases (ltb (length (letters (concat rounds))) (groups * group_size))) [
      | inl few ↦ rw few refl
      | inr enough ↦ rw enough refl
    ]
