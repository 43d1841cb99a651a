-- ===== src/Device/Lifecycle.antt =====
-- The states of a device session.
-- About src/db/queries/devices.ts.
use mathlib.Core.Path.{subst}
use keyforge.Prelude.{
  update, ℕ, String, ◌≡◌, refl, inl, inr, Bool, true, ◌||◌, some, List, [], ◌∷◌, leb, Bool-cases,
  length, any, filter, ◌==◌, &&-right, IsMember, string_eq, option_eq, nat_eq,
}
use keyforge.Device.{
  Status, pending, approved, denied, expired, consumed, Row, CreateInput, is_pending, is_approved,
  create_device_session, approve_device, deny_device, consume_approved_device, mark_device_expired,
  record_device_poll, record_device_slow_poll, Call, creates, approves, denies, consumes, expires,
  polls, slow_polls, revokes, retires, forgets_user, forgets_session, revoke_device_session,
  retire_resource, forget_user, forget_session, step, counts, clashes,
}

-- One change of state: a user's decision, the expiry, the exchange, or a denial by the administration.
pub data Step : Status → Status → Type 0 where
  grants : Step pending approved
  refuses : Step pending denied
  lapses : Step pending expired
  withdraws : Step approved expired
  cancels : Step approved denied
  redeems : Step approved consumed

pub data Reaches (s : Status) : Status → Type 0 where
  stays : Reaches s s
  moves : {t u : Status} → Reaches s t → Step t u → Reaches s u

pub Reaches-trans : {s t u : Status} → Reaches s t → Reaches t u → Reaches s u
Reaches-trans a stays = a
Reaches-trans a (moves b c) = moves (Reaches-trans a b) c

-- The row is still there, in a state that its state leads to.
abbrev pub Persists : Row → List Row → Type 0
Persists row rows =
    (row' : Row) × IsMember row' rows × (row'.id ≡ row.id) × Reaches row.status row'.status

from_pending : (s t : Status) → Step pending t → is_pending s ≡ true → Reaches s t
from_pending pending t c h = moves stays c
from_pending approved t c h = cc
from_pending denied t c h = cc
from_pending expired t c h = cc
from_pending consumed t c h = cc

from_approved : (s t : Status) → Step approved t → is_approved s ≡ true → Reaches s t
from_approved approved t c h = moves stays c
from_approved pending t c h = cc
from_approved denied t c h = cc
from_approved expired t c h = cc
from_approved consumed t c h = cc

to_expired : (s : Status) → (is_pending s || is_approved s) ≡ true → Reaches s expired
to_expired pending h = moves stays lapses
to_expired approved h = moves stays withdraws
to_expired denied h = cc
to_expired expired h = cc
to_expired consumed h = cc

to_denied : (s : Status) → (is_pending s || is_approved s) ≡ true → Reaches s denied
to_denied pending h = moves stays refuses
to_denied approved h = moves stays cancels
to_denied denied h = cc
to_denied expired h = cc
to_denied consumed h = cc

module _ (test : Row → Bool) (change : Row → Row)
    (lawful : (r : Row)
      → test r ≡ true
      → ((change r).id ≡ r.id) × Reaches r.status (change r).status) where
  update-Persists :
      (rows : List Row) (row : Row) → IsMember row rows → Persists row (update test change rows)
  update-Persists [] row m = absurd m
  update-Persists (x ∷ xs) row (inl e) =
      subst (λ r. Persists r (update test change (x ∷ xs))) e
        (elim (Bool-cases (test x)) [
          | inl holds ↦ (change x, inl (rw holds), (lawful x holds).0, (lawful x holds).1)
          | inr fails ↦ (x, inl (rw fails), refl, stays)
        ])
  update-Persists (x ∷ xs) row (inr m) =
      let (row', m', e, r) = update-Persists xs row m in (row', inr m', e, r)

create-Persists :
    (id : String) (input : CreateInput) (now : ℕ) (rows : List Row) (row : Row)
    → IsMember row rows
    → Persists row (step (creates id input now) rows)
unfolding step create_device_session
create-Persists id input now rows row m =
    elim (Bool-cases (leb input.max_active_sessions (length (filter (counts input now) rows)))) [
      | inl full ↦ rw full (row, m, refl, stays)
      | inr room ↦ elim (Bool-cases (any (clashes id input) rows)) [
        | inl clash ↦ rw (room, clash) (row, m, refl, stays)
        | inr fresh ↦ rw (room, fresh) (row, inr m, refl, stays)
      ]
    ]

pub step-Persists :
    (c : Call) (rows : List Row) (row : Row) → IsMember row rows → Persists row (step c rows)
unfolding step approve_device deny_device consume_approved_device mark_device_expired
    record_device_poll record_device_slow_poll revoke_device_session retire_resource forget_user
    forget_session
step-Persists (creates id input now) rows row m = create-Persists id input now rows row m
step-Persists (approves id user_id session_id auth_time now) rows row m =
    update-Persists _ _
      (λ r h. (
        refl,
        from_pending r.status approved grants (&&-right (r.id == id) (is_pending r.status) h),
      ))
      rows row m
step-Persists (denies id now) rows row m =
    update-Persists _ _
      (λ r h. (
        refl,
        from_pending r.status denied refuses (&&-right (r.id == id) (is_pending r.status) h),
      ))
      rows row m
step-Persists (consumes id) rows row m =
    update-Persists _ _
      (λ r h. (
        refl,
        from_approved r.status consumed redeems (&&-right (r.id == id) (is_approved r.status) h),
      ))
      rows row m
step-Persists (expires id) rows row m =
    update-Persists _ _
      (λ r h. (
        refl,
        to_expired r.status (&&-right (r.id == id) (is_pending r.status || is_approved r.status) h),
      ))
      rows row m
step-Persists (polls id now) rows row m = update-Persists _ _ (λ r h. (refl, stays)) rows row m
step-Persists (slow_polls id now) rows row m = update-Persists _ _ (λ r h. (refl, stays)) rows row m
step-Persists (revokes id now) rows row m =
    update-Persists _ _
      (λ r h. (
        refl,
        to_denied r.status (&&-right (r.id == id) (is_pending r.status || is_approved r.status) h),
      ))
      rows row m
step-Persists (retires resource_uri now) rows row m =
    update-Persists _ _
      (λ r h. (
        refl,
        to_denied r.status (
            &&-right (r.resource_uri == some resource_uri)
              (is_pending r.status || is_approved r.status) h),
      ))
      rows row m
step-Persists (forgets_user user_id) rows row m =
    update-Persists _ _ (λ r h. (refl, stays)) rows row m
step-Persists (forgets_session session_id) rows row m =
    update-Persists _ _ (λ r h. (refl, stays)) rows row m
