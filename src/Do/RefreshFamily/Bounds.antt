-- ===== src/Do/RefreshFamily/Bounds.antt =====
-- What the successful rotations of a family share, how many there are, and how far apart.
-- About src/do/RefreshTokenFamilyDO.ts.
use keyforge.Prelude.{
  ℕ, ◌+◌, ◌≤◌, ◌≡◌, refl, ◌⊎◌, inl, inr, String, none, some, List, [], ◌∷◌, arith, length,
}
use keyforge.Env.{minimum_rotation_interval_seconds, maximum_generation}
use keyforge.Do.RefreshFamily.{
  Init, Meta, Storage, Call, rotates, revokes, alarms, rotations, burn, advance, alarm, init, empty,
  or_else, first_meta,
}
use keyforge.Do.RefreshFamily.Fields.{
  IsGranted, rotate_cases, rotate_missing, revoke-none, revoke-some,
}

abbrev pub last_rotation : Meta → ℕ
last_rotation meta = or_else meta.last_rotated_at meta.created_at

-- Each generation is one more than the one before it, and comes at least the minimum interval after
-- it, unless it is the first.
abbrev pub IsSpaced : Meta → List Meta → Type 0
IsSpaced meta [] = Unit
IsSpaced meta (next ∷ metas) =
    (next.generation ≡ meta.generation + 1)
    × ((meta.generation ≡ 0)
        ⊎ (last_rotation meta + minimum_rotation_interval_seconds ≤ last_rotation next))
    × IsSpaced next metas

no_rotations : (calls : List Call) (s : Storage) → s.meta ≡ none → rotations calls s ≡ []
unfolding rotations alarm
no_rotations [] s h = refl
no_rotations (rotates presented new_hash client_id next_scope now later ∷ calls) s h =
    rw (rotate_missing presented new_hash client_id next_scope now later s (inl h))
      (no_rotations calls s h)
no_rotations (revokes ∷ calls) s h = rw (revoke-none s h) (no_rotations calls s h)
no_rotations (alarms ∷ calls) s h = no_rotations calls _ refl

burn_bound :
    (meta : Meta)
    → meta.generation ≤ maximum_generation
    → (burn meta).generation ≤ maximum_generation
unfolding burn
burn_bound meta b = b

advance_bound :
    (meta : Meta) (scope : String) (later : ℕ) {presented client_id current : String} {now : ℕ}
    → IsGranted presented client_id now later meta current
    → (advance meta scope later).generation ≤ maximum_generation
unfolding advance
advance_bound meta scope later g = omega arith

-- What a family in the state `meta` still yields.
pub record Yields (meta : Meta) (metas : List Meta) : Type 0 where
  pub bounded : meta.generation + length metas ≤ maximum_generation
  pub spaced : IsSpaced meta metas

Yields-next :
    (meta : Meta) (scope : String) (later : ℕ) (metas : List Meta)
    {presented client_id current : String} {now : ℕ}
    → IsGranted presented client_id now later meta current
    → Yields (advance meta scope later) metas
    → Yields meta (advance meta scope later ∷ metas)
unfolding advance
Yields-next meta scope later metas g y = record {
  bounded = ground arith;
  spaced = (refl, ground arith, y.spaced);
}

Yields-burn : (meta : Meta) (metas : List Meta) → Yields (burn meta) metas → Yields meta metas
unfolding burn
Yields-burn meta [] y = record { bounded = y.bounded; spaced = tt }
Yields-burn meta (m ∷ metas) y = record { bounded = y.bounded; spaced = y.spaced }

rotations_yield :
    (calls : List Call) (s : Storage) (meta : Meta) (current : String)
    → s.meta ≡ some meta
    → s.current_hash ≡ some current
    → meta.generation ≤ maximum_generation
    → Yields meta (rotations calls s)
unfolding rotations alarm
rotations_yield [] s meta current hm hc b = record { bounded = omega arith; spaced = tt }
rotations_yield (rotates presented new_hash client_id next_scope now later ∷ calls) s meta current
      hm hc b =
    elim (rotate_cases presented new_hash client_id next_scope now later s meta current hm hc) [
      | inl (granted, e) ↦ rw e (
          Yields-next meta next_scope later _ granted (
            rotations_yield calls _ (advance meta next_scope later) new_hash refl refl
              (advance_bound meta next_scope later granted)))
      | inr (r, inl e) ↦ rw (r, e) (rotations_yield calls s meta current hm hc b)
      | inr (r, inr e) ↦
          rw (r, e)
            (Yields-burn meta _
              (rotations_yield calls _ (burn meta) current refl hc (burn_bound meta b)))
    ]
rotations_yield (revokes ∷ calls) s meta current hm hc b = rw (revoke-some s meta hm) (
    Yields-burn meta _ (
      rotations_yield calls (record s { meta = some (burn meta) }) (burn meta) current refl hc
        (burn_bound meta b)))
rotations_yield (alarms ∷ calls) s meta current hm hc b =
    rw (no_rotations calls (alarm s) refl) (record { bounded = omega arith; spaced = tt })

init-Yields :
    (input : Init) (now : ℕ) (calls : List Call)
    → Yields (first_meta input now) (rotations calls (init input now empty))
unfolding init first_meta rotations empty
init-Yields input now calls =
    rotations_yield calls _ (first_meta input now) input.current_token_hash refl refl (omega arith)

-- A new family grants no more rotations than the maximum generation, numbers them one after another,
-- and grants each after the first no sooner than the minimum interval after the one before it.
pub rotations-init_bounded :
    (input : Init) (now : ℕ) (calls : List Call)
    → let metas = rotations calls (init input now empty) in
      (length metas ≤ maximum_generation) × IsSpaced (first_meta input now) metas
unfolding first_meta
rotations-init_bounded input now calls =
    let y = init-Yields input now calls in (omega (arith, y.bounded), y.spaced)
