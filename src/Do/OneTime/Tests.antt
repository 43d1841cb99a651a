-- ===== src/Do/OneTime/Tests.antt =====
-- The single-use store at concrete histories.
-- About src/do/base.ts.
use keyforge.Prelude.{String, ◌≡◌, refl, ◌⊎◌, List, [], ◌∷◌, arith, string_eq, option_eq, nat_eq}
use keyforge.Do.OneTime.{Call, consumes, peeks, alarms, empty, store, consume, handed_out}
use keyforge.Do.OneTime.Register.{
  Operation, stores, answers, register_answers, register, answers-register,
}
use keyforge.Do.OneTime.Register
use keyforge.Do.OneTime.Once.{handed_out-store_once, handed_out-store_exact}

-- A token of one minute, looked at, taken, and asked for again.
abbrev race : List Call
race = peeks 2000 ∷ consumes 3000 ∷ consumes 3000 ∷ consumes 4000 ∷ alarms 200000 ∷ []

handed_out-store_once_example :
    (handed_out race (store {T = String} "v" 60 1000 empty) ≡ [])
    ⊎ (handed_out race (store {T = String} "v" 60 1000 empty) ≡ "v" ∷ [])
handed_out-store_once_example = handed_out-store_once "v" 60 1000 empty race

handed_out-store_exact_example : handed_out race (store {T = String} "v" 60 1000 empty) ≡ "v" ∷ []
handed_out-store_exact_example =
    handed_out-store_exact "v" 60 1000 empty race (omega arith) (omega arith)

late : handed_out (consumes 61001 ∷ consumes 61002 ∷ []) (store {T = String} "v" 60 1000 empty) ≡ []
unfolding handed_out store consume
late = refl

abbrev operations : List (Operation String)
operations =
    stores "v" 60 1000
    ∷ Register.peeks 2000
    ∷ Register.consumes 2000
    ∷ Register.consumes 2001
    ∷ Register.alarms
    ∷ []

answers-register_example : answers operations empty ≡ register_answers operations (register empty)
answers-register_example = answers-register operations empty
