-- ===== src/Do/RefreshFamily/Owner.antt =====
-- For whom the rotations of a family are granted.
-- About src/do/RefreshTokenFamilyDO.ts.
use keyforge.Prelude.{
  ℕ, String, ◌≡◌, refl, ap, ◌∙◌, inl, inr, Option, none, some, List, [], ◌∷◌, arith,
}
use keyforge.Do.RefreshFamily.{
  Init, Meta, Storage, rotates, revokes, alarms, rotate, rotation, Event, inits, receives,
  event_step, event_rotation, step, burn, advance, alarm, init, init_keys, empty, first_meta,
}
use keyforge.Do.RefreshFamily.Fields.{rotate_cases, rotate_missing, revoke-none, revoke-some}

-- The grant that a family was made for.
pub record IsGrantOf (input : Init) (meta : Meta) : Type 0 where
  pub user_id : meta.user_id ≡ input.user_id
  pub client_id : meta.client_id ≡ input.client_id
  pub resource : meta.resource ≡ input.resource
  pub auth_time : meta.auth_time ≡ some input.auth_time
  pub absolute_expires_at : meta.absolute_expires_at ≡ input.absolute_expires_at

advance-IsGrantOf :
    (input : Init) (meta : Meta) (scope : String) (now : ℕ)
    → IsGrantOf input meta
    → IsGrantOf input (advance meta scope now)
unfolding advance
advance-IsGrantOf input meta scope now g = ground arith

burn-IsGrantOf : (input : Init) (meta : Meta) → IsGrantOf input meta → IsGrantOf input (burn meta)
unfolding burn
burn-IsGrantOf input meta g = ground arith

-- The initialisation that the family goes back to: the first one, or the first after an alarm.
pub owner_after : Event → Option Init → Option Init
owner_after (inits input now) none = some input
owner_after (inits input now) (some first) = some first
owner_after (receives (rotates presented new_hash client_id next_scope now later)) owner = owner
owner_after (receives revokes) owner = owner
owner_after (receives alarms) owner = none

-- A rotation is for what the family was made for; an object without a family grants none.
abbrev pub IsOwned : Option Init → Option Meta → Type 0
IsOwned owner none = Unit
IsOwned none (some meta) = ⊥
IsOwned (some input) (some meta) = IsGrantOf input meta

-- Every rotation of the history is.
pub AreOwned : Option Init → List Event → Storage → Type 0
AreOwned owner [] s = Unit
AreOwned owner (event ∷ events) s =
    IsOwned owner (event_rotation event s)
    × AreOwned (owner_after event owner) events (event_step event s)

-- The storage is that of a family for the grant.
record Holds (input : Init) (s : Storage) : Type 0 where
  meta : Meta
  current : String
  has_meta : s.meta ≡ some meta
  has_hash : s.current_hash ≡ some current
  for_grant : IsGrantOf input meta

abbrev Owns : Option Init → Storage → Type 0
Owns none s = s.meta ≡ none
Owns (some input) s = Holds input s

abbrev Kept : Option Init → Event → Storage → Type 0
Kept owner event s =
    IsOwned owner (event_rotation event s) × Owns (owner_after event owner) (event_step event s)

init-Owns : (input : Init) (now : ℕ) (s : Storage) → s.meta ≡ none → Holds input (init input now s)
unfolding init init_keys first_meta
init-Owns input now s h = record {
  meta = first_meta input now;
  current = input.current_token_hash;
  has_meta = rw h refl;
  has_hash = rw h refl;
  for_grant = record {
    user_id = refl;
    client_id = refl;
    resource = refl;
    auth_time = refl;
    absolute_expires_at = refl;
  };
}

init_again :
    (first input : Init) (now : ℕ) (s : Storage) → Holds first s → Holds first (init input now s)
unfolding init init_keys
init_again first input now s holds = record {
  meta = holds.meta;
  current = holds.current;
  has_meta = ground (arith, holds.has_meta);
  has_hash = ground (arith, holds.has_meta, holds.has_hash);
  for_grant = holds.for_grant;
}

rotates-Kept :
    (input : Init) (presented new_hash client_id next_scope : String) (now later : ℕ) (s : Storage)
    → Holds input s
    → let (result, after) = rotate presented new_hash client_id next_scope now later s in
      IsOwned (some input) (rotation result) × Holds input after
rotates-Kept input presented new_hash client_id next_scope now later s holds =
    let meta = holds.meta in
    let current = holds.current in
    let hm = holds.has_meta in
    let hc = holds.has_hash in
    let grant = holds.for_grant in
    elim (rotate_cases presented new_hash client_id next_scope now later s meta current hm hc) [
      | inl (granted, e) ↦ rw e (
        advance-IsGrantOf input meta next_scope later grant,
        record {
          meta = advance meta next_scope later;
          current = new_hash;
          has_meta = refl;
          has_hash = refl;
          for_grant = advance-IsGrantOf input meta next_scope later grant;
        },
      )
      | inr (r, inl e) ↦ rw (r, e) (tt, holds)
      | inr (r, inr e) ↦
          rw (r, e)
            (
              tt,
              record {
                meta = burn meta;
                current = current;
                has_meta = refl;
                has_hash = hc;
                for_grant = burn-IsGrantOf input meta grant;
              },
            )
    ]

event-Kept : (owner : Option Init) (event : Event) (s : Storage) → Owns owner s → Kept owner event s
unfolding owner_after event_step event_rotation step alarm empty
event-Kept none (inits input now) s none_yet = (tt, init-Owns input now s none_yet)
event-Kept none (receives (rotates presented new_hash client_id next_scope now later)) s none_yet =
    let e = rotate_missing presented new_hash client_id next_scope now later s (inl none_yet) in
    (rw e tt, ap (λ x. x.1.meta) e ∙ none_yet)
event-Kept none (receives revokes) s none_yet =
    (tt, ap (λ x. x.meta) (revoke-none s none_yet) ∙ none_yet)
event-Kept none (receives alarms) s none_yet = (tt, refl)
event-Kept (some first) (inits input now) s holds = (tt, init_again first input now s holds)
event-Kept (some first) (receives (rotates presented new_hash client_id next_scope now later)) s
      holds =
    rotates-Kept first presented new_hash client_id next_scope now later s holds
event-Kept (some first) (receives revokes) s holds = rw (revoke-some s holds.meta holds.has_meta) (
  tt,
  record {
    meta = burn holds.meta;
    current = holds.current;
    has_meta = refl;
    has_hash = holds.has_hash;
    for_grant = burn-IsGrantOf first holds.meta holds.for_grant;
  },
)
event-Kept (some first) (receives alarms) s holds = (tt, refl)

owned_from :
    (owner : Option Init) (events : List Event) (s : Storage)
    → Owns owner s
    → AreOwned owner events s
unfolding AreOwned
owned_from owner [] s h = tt
owned_from owner (event ∷ events) s h =
    let (owned, next) = event-Kept owner event s h in
    (owned, owned_from (owner_after event owner) events (event_step event s) next)

-- Whatever a new object receives, initialisations included, every rotation that it grants is for the
-- user, the client, the resource, the authentication time and the absolute expiry of the
-- initialisation that found it empty: no later one replaces these before an alarm empties it, and
-- without one it grants no rotation.
pub events-AreOwned : (events : List Event) → AreOwned none events empty
unfolding empty
events-AreOwned events = owned_from none events _ refl
