-- ===== src/Device/Once.antt =====
-- How often a device session is consumed.
-- About src/db/queries/devices.ts.
use mathlib.Core.Path.{subst}
use keyforge.Prelude.{
  update, changes_one, ℕ, ◌≤◌, String, ◌≡◌, refl, sym, ◌⊎◌, inl, inr, Bool, true, false, List, [],
  ◌∷◌, arith, eq_iff, Bool-cases, length, any, filter, ◌==◌, &&-left, &&-right, string_eq,
  option_eq, nat_eq,
}
use keyforge.Device.{
  consumed, Row, CreateInput, is_approved_at, is_active_at, create_device_session, approve_device,
  deny_device, consume_approved_device, mark_device_expired, record_device_poll,
  record_device_slow_poll, Call, creates, approves, denies, consumes, expires, polls, slow_polls,
  revokes, retires, forgets_user, forgets_session, revoke_device_session, retire_resource,
  forget_user, forget_session, step, succeeds, successes, clashes,
}

abbrev pub has : String → Row → Bool
has id row = row.id == id

abbrev pub rows_at : String → List Row → ℕ
rows_at id rows = length (filter (has id) rows)

-- The session exists and is past being active.
record IsOver (id : String) (rows : List Row) : Type 0 where
  exists : 1 ≤ rows_at id rows
  inactive : any (is_active_at id) rows ≡ false

module _ (id : String) (test : Row → Bool) (change : Row → Row)
    (keeps : (r : Row) → (change r).id ≡ r.id) where
  rows_at-update : (rows : List Row) → rows_at id (update test change rows) ≡ rows_at id rows
  rows_at-update [] = refl
  rows_at-update (x ∷ xs) = ground (arith, keeps x, rows_at-update xs)

  inactive-update :
      ((r : Row) → test r ≡ true → is_active_at id r ≡ false → is_active_at id (change r) ≡ false)
      → (rows : List Row) → any (is_active_at id) rows ≡ false
      → any (is_active_at id) (update test change rows) ≡ false
  inactive-update quiet [] h = refl
  inactive-update quiet (x ∷ xs) h = ground (arith, quiet x, inactive-update quiet xs)

fresh_rows_at :
    (id : String) (input : CreateInput) (rows : List Row)
    → any (clashes id input) rows ≡ false
    → rows_at id rows ≡ 0
fresh_rows_at id input [] h = refl
fresh_rows_at id input (x ∷ xs) h = ground (arith, fresh_rows_at id input xs)

create_rows_at :
    (id id' : String) (input : CreateInput) (now : ℕ) (rows : List Row)
    → (rows_at id (step (creates id' input now) rows) ≡ rows_at id rows)
      ⊎ ((rows_at id rows ≡ 0) × (rows_at id (step (creates id' input now) rows) ≡ 1))
unfolding step create_device_session
create_rows_at id id' input now rows = elim (Bool-cases (any (clashes id' input) rows)) [
  | inl clash ↦ ground (arith, clash)
  | inr fresh ↦ ground (arith, fresh, fresh_rows_at id' input rows fresh, eq_iff id' id)
]

create_inactive :
    (id id' : String) (input : CreateInput) (now : ℕ) (rows : List Row)
    → IsOver id rows
    → any (is_active_at id) (step (creates id' input now) rows) ≡ false
unfolding step create_device_session
create_inactive id id' input now rows o = elim (Bool-cases (any (clashes id' input) rows)) [
  | inl clash ↦ ground (arith, clash, o.inactive)
  | inr fresh ↦
      ground (arith, fresh, o.inactive, o.exists, fresh_rows_at id' input rows fresh, eq_iff id' id)
]

pub step-rows_at :
    (id : String) (c : Call) (rows : List Row)
    → (rows_at id (step c rows) ≡ rows_at id rows)
      ⊎ ((rows_at id rows ≡ 0) × (rows_at id (step c rows) ≡ 1))
unfolding step approve_device deny_device consume_approved_device mark_device_expired
    record_device_poll record_device_slow_poll revoke_device_session retire_resource forget_user
    forget_session
step-rows_at id (creates id' input now) rows = create_rows_at id id' input now rows
step-rows_at id (approves id' user_id session_id auth_time now) rows =
    inl (rows_at-update id _ _ (λ r. refl) rows)
step-rows_at id (denies id' now) rows = inl (rows_at-update id _ _ (λ r. refl) rows)
step-rows_at id (consumes id') rows = inl (rows_at-update id _ _ (λ r. refl) rows)
step-rows_at id (expires id') rows = inl (rows_at-update id _ _ (λ r. refl) rows)
step-rows_at id (polls id' now) rows = inl (rows_at-update id _ _ (λ r. refl) rows)
step-rows_at id (slow_polls id' now) rows = inl (rows_at-update id _ _ (λ r. refl) rows)
step-rows_at id (revokes id' now) rows = inl (rows_at-update id _ _ (λ r. refl) rows)
step-rows_at id (retires resource_uri now) rows = inl (rows_at-update id _ _ (λ r. refl) rows)
step-rows_at id (forgets_user user_id) rows = inl (rows_at-update id _ _ (λ r. refl) rows)
step-rows_at id (forgets_session session_id) rows = inl (rows_at-update id _ _ (λ r. refl) rows)

step_inactive :
    (id : String) (c : Call) (rows : List Row)
    → IsOver id rows
    → any (is_active_at id) (step c rows) ≡ false
unfolding step approve_device deny_device consume_approved_device mark_device_expired
    record_device_poll record_device_slow_poll revoke_device_session retire_resource forget_user
    forget_session
step_inactive id (creates id' input now) rows o = create_inactive id id' input now rows o
step_inactive id (approves id' user_id session_id auth_time now) rows o =
    inactive-update id _ _ (λ r. refl)
      (λ r h k. ground (arith, h, k, eq_iff r.id id, eq_iff r.id id')) rows o.inactive
step_inactive id (denies id' now) rows o =
    inactive-update id _ _ (λ r. refl) (λ r h k. ground arith) rows o.inactive
step_inactive id (consumes id') rows o =
    inactive-update id _ _ (λ r. refl) (λ r h k. ground arith) rows o.inactive
step_inactive id (expires id') rows o =
    inactive-update id _ _ (λ r. refl) (λ r h k. ground arith) rows o.inactive
step_inactive id (polls id' now) rows o =
    inactive-update id _ _ (λ r. refl) (λ r h k. k) rows o.inactive
step_inactive id (slow_polls id' now) rows o =
    inactive-update id _ _ (λ r. refl) (λ r h k. k) rows o.inactive
step_inactive id (revokes id' now) rows o =
    inactive-update id _ _ (λ r. refl) (λ r h k. ground arith) rows o.inactive
step_inactive id (retires resource_uri now) rows o =
    inactive-update id _ _ (λ r. refl) (λ r h k. ground arith) rows o.inactive
step_inactive id (forgets_user user_id) rows o =
    inactive-update id _ _ (λ r. refl) (λ r h k. k) rows o.inactive
step_inactive id (forgets_session session_id) rows o =
    inactive-update id _ _ (λ r. refl) (λ r h k. k) rows o.inactive

step-IsOver : (id : String) (c : Call) (rows : List Row) → IsOver id rows → IsOver id (step c rows)
step-IsOver id c rows o = record {
  exists = omega (arith, o.exists, step-rows_at id c rows);
  inactive = step_inactive id c rows o;
}

none_approved :
    (id : String) (rows : List Row)
    → any (is_active_at id) rows ≡ false
    → length (filter (is_approved_at id) rows) ≡ 0
none_approved id [] h = refl
none_approved id (x ∷ xs) h = ground (arith, none_approved id xs)

over_refuses :
    (id : String) (c : Call) (rows : List Row) → IsOver id rows → succeeds id c rows ≡ false
unfolding succeeds consume_approved_device
over_refuses id (creates id' input now) rows o = refl
over_refuses id (approves id' user_id session_id auth_time now) rows o = refl
over_refuses id (denies id' now) rows o = refl
over_refuses id (consumes id') rows o = elim (Bool-cases (id' == id)) [
  | inl same ↦
      (let o' : IsOver id' rows = subst (λ x. IsOver x rows) (sym ((eq_iff id' id).0 same)) o in
        ground (arith, same, none_approved id' rows o'.inactive))
  | inr other ↦ ground (arith, other)
]
over_refuses id (expires id') rows o = refl
over_refuses id (polls id' now) rows o = refl
over_refuses id (slow_polls id' now) rows o = refl
over_refuses id (revokes id' now) rows o = refl
over_refuses id (retires resource_uri now) rows o = refl
over_refuses id (forgets_user user_id) rows o = refl
over_refuses id (forgets_session session_id) rows o = refl

successes_over :
    (id : String) (calls : List Call) (rows : List Row)
    → IsOver id rows
    → successes id calls rows ≡ 0
unfolding successes
successes_over id [] rows o = refl
successes_over id (c ∷ calls) rows o = ground (
  arith,
  over_refuses id c rows o,
  successes_over id calls (step c rows) (step-IsOver id c rows o),
)

approved-le-rows_at :
    (id : String) (rows : List Row) → length (filter (is_approved_at id) rows) ≤ rows_at id rows
approved-le-rows_at id [] = omega arith
approved-le-rows_at id (x ∷ xs) = ground (arith, approved-le-rows_at id xs)

inactive_of_none :
    (id : String) (rows : List Row) → rows_at id rows ≡ 0 → any (is_active_at id) rows ≡ false
inactive_of_none id [] h = refl
inactive_of_none id (x ∷ xs) h = ground (arith, inactive_of_none id xs)

spent_inactive :
    (id : String) (rows : List Row)
    → rows_at id rows ≤ 1
    → length (filter (is_approved_at id) rows) ≡ 1
    → any
        (is_active_at id)
        (update (is_approved_at id) (λ row. record row { status = consumed }) rows)
      ≡ false
spent_inactive id [] h k = refl
spent_inactive id (x ∷ xs) h k = elim (Bool-cases (is_approved_at id x)) [
  | inl here ↦ ground (
    arith,
    here,
    inactive-update id (is_approved_at id) (λ row. record row { status = consumed }) (λ r. refl)
        (λ r a b. ground arith) xs,
    inactive_of_none id xs,
  )
  | inr elsewhere ↦ ground (arith, elsewhere, approved-le-rows_at id xs, spent_inactive id xs)
]

success-IsOver :
    (id : String) (c : Call) (rows : List Row)
    → rows_at id rows ≤ 1
    → succeeds id c rows ≡ true
    → IsOver id (step c rows)
unfolding succeeds step consume_approved_device
success-IsOver id (creates id' input now) rows h k = cc
success-IsOver id (approves id' user_id session_id auth_time now) rows h k = cc
success-IsOver id (denies id' now) rows h k = cc
success-IsOver id (expires id') rows h k = cc
success-IsOver id (polls id' now) rows h k = cc
success-IsOver id (slow_polls id' now) rows h k = cc
success-IsOver id (revokes id' now) rows h k = cc
success-IsOver id (retires resource_uri now) rows h k = cc
success-IsOver id (forgets_user user_id) rows h k = cc
success-IsOver id (forgets_session session_id) rows h k = cc
success-IsOver id (consumes id') rows h k =
    let same : id' ≡ id =
      (eq_iff id' id).0 (&&-left (id' == id) (changes_one (is_approved_at id') rows) k) in
    let one : length (filter (is_approved_at id') rows) ≡ 1 =
      ground (arith, &&-right (id' == id) (changes_one (is_approved_at id') rows) k) in
    let h' : rows_at id' rows ≤ 1 = rw same h in
    subst (λ x. IsOver x (step (consumes id') rows)) same
      (record {
        exists = omega (
          arith,
          rows_at-update id' (is_approved_at id') (λ row. record row { status = consumed })
              (λ r. refl) rows,
          approved-le-rows_at id' rows,
          one,
        );
        inactive = spent_inactive id' rows h' one;
      })

-- Whatever statements add and change rows of a table in which the identifier stands at most once,
-- the session is consumed for at most one caller.
pub successes_once :
    (id : String) (calls : List Call) (rows : List Row)
    → rows_at id rows ≤ 1
    → successes id calls rows ≤ 1
unfolding successes
successes_once id [] rows h = omega arith
successes_once id (c ∷ calls) rows h = elim (Bool-cases (succeeds id c rows)) [
  | inl won ↦
      ground (arith, won, successes_over id calls (step c rows) (success-IsOver id c rows h won))
  | inr lost ↦ ground (
    arith,
    lost,
    successes_once id calls (step c rows) (omega (arith, h, step-rows_at id c rows)),
  )
]
