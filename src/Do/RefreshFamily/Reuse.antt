-- ===== src/Do/RefreshFamily/Reuse.antt =====
-- What a token that was rotated out does when it is presented again.
-- About src/do/RefreshTokenFamilyDO.ts.
use keyforge.Prelude.{
  ℕ, ◌≤◌, ◌≡◌, ◌≢◌, refl, ◌⊎◌, inl, inr, String, true, none, some, List, [], ◌∷◌, arith,
  Option-cases, Bool-cases, All, includes, string_eq, eq_iff,
}
use keyforge.Do.RefreshFamily.{
  Meta, Storage, Call, rotates, revokes, alarms, rotations, rotation, rotated, burn, advance,
  was_used, rotate, revoke, alarm, run, step,
}
use keyforge.Do.RefreshFamily.Fields.{
  rotate_cases, rotate_used, rotate_missing, revoke-none, revoke-some,
}

-- The family is gone or revoked.
abbrev pub IsDead : Storage → Type 0
IsDead s = (s.meta ≡ none) ⊎ ((meta : Meta) × (s.meta ≡ some meta) × (meta.revoked ≡ true))

rotate_dead :
    (presented new_hash client_id next_scope : String) (now later : ℕ) (s : Storage)
    → IsDead s
    → let r = rotate presented new_hash client_id next_scope now later s in
      (rotation r.0 ≡ none) × (r.1 ≡ s)
unfolding rotate
rotate_dead presented new_hash client_id next_scope now later s d =
    ground (arith, Option-cases s.current_hash)

revoke-IsDead : (s : Storage) → IsDead s → IsDead (revoke s)
unfolding burn
revoke-IsDead s (inl gone) = rw (revoke-none s gone) (inl gone)
revoke-IsDead s (inr (meta, h, r)) = rw (revoke-some s meta h) (inr (burn meta, refl, refl))

-- A family that is gone or revoked grants no rotation any more.
pub rotations_dead : (calls : List Call) (s : Storage) → IsDead s → rotations calls s ≡ []
unfolding rotations alarm
rotations_dead [] s d = refl
rotations_dead (rotates presented new_hash client_id next_scope now later ∷ calls) s d =
    let (r, same) = rotate_dead presented new_hash client_id next_scope now later s d in
    rw (r, same) (rotations_dead calls s d)
rotations_dead (revokes ∷ calls) s d = rotations_dead calls (revoke s) (revoke-IsDead s d)
rotations_dead (alarms ∷ calls) s d = rotations_dead calls _ (inl refl)

-- The hash was current once and is not any more.
pub record IsSpent (hash client_id : String) (expires_at : ℕ) (s : Storage) : Type 0 where
  pub meta : Meta
  pub current : String
  pub has_meta : s.meta ≡ some meta
  pub has_current : s.current_hash ≡ some current
  pub replaced : current ≢ hash
  pub remembered : includes s.used hash ≡ true
  pub client : meta.client_id ≡ client_id
  pub expiry : meta.absolute_expires_at ≡ expires_at

replay_spent :
    (hash new_hash client_id next_scope : String) (now later expires_at : ℕ) (s : Storage)
    → IsSpent hash client_id expires_at s
    → now ≤ expires_at
    → let r = rotate hash new_hash client_id next_scope now later s in
      (rotation r.0 ≡ none) × IsDead r.1
unfolding was_used burn
replay_spent hash new_hash client_id next_scope now later expires_at s v h =
    elim (Bool-cases v.meta.revoked) [
      | inl r ↦
          (let dead : IsDead s = inr (v.meta, v.has_meta, r) in
            let (nothing, same) = rotate_dead hash new_hash client_id next_scope now later s dead in
            (nothing, rw same dead))
      | inr alive ↦
          (let e =
              rotate_used hash new_hash client_id next_scope now later s v.meta v.current v.has_meta
                v.has_current v.client alive (omega (arith, v.expiry)) v.replaced
                (ground (arith, v.remembered)) in
            rw e (refl, inr (burn v.meta, refl, refl)))
    ]

-- A later rotation of the family does not bring the hash back, if it never becomes a new hash.
abbrev pub IsFresh : String → Call → Type 0
IsFresh hash (rotates presented new_hash client_id next_scope now later) = new_hash ≢ hash
IsFresh hash revokes = Unit
IsFresh hash alarms = Unit

abbrev Stays : (hash client_id : String) (expires_at : ℕ) → Storage → Type 0
Stays hash client_id expires_at s = IsDead s ⊎ IsSpent hash client_id expires_at s

step-IsDead : (c : Call) (s : Storage) → IsDead s → IsDead (step c s)
unfolding step alarm
step-IsDead (rotates presented new_hash client_id next_scope now later) s d =
    rw (rotate_dead presented new_hash client_id next_scope now later s d).1 d
step-IsDead revokes s d = revoke-IsDead s d
step-IsDead alarms s d = inl refl

module _ (hash new_hash client_id next_scope : String) (now later : ℕ) (s : Storage) (meta : Meta)
    (r : (rotate hash new_hash client_id next_scope now later s).0 ≡ rotated meta)
    (n : new_hash ≢ hash) where
  IsSpent-from :
      (old : Meta) (current : String)
      → s.meta ≡ some old
      → s.current_hash ≡ some current
      → IsSpent hash client_id meta.absolute_expires_at
          (rotate hash new_hash client_id next_scope now later s).1
  unfolding advance
  IsSpent-from old current hm hc =
      elim (rotate_cases hash new_hash client_id next_scope now later s old current hm hc) [
        | inl (g, e) ↦ rw e (record {
          meta = advance old next_scope later;
          current = new_hash;
          has_meta = refl;
          has_current = refl;
          replaced = n;
          remembered = ground (arith, eq_iff current hash, g.is_current);
          client = g.client;
          expiry = cc (e, r);
        })
        | inr (refused, _) ↦ cc (refused, r)
      ]

  rotated-IsSpent :
      IsSpent hash client_id meta.absolute_expires_at
        (rotate hash new_hash client_id next_scope now later s).1
  rotated-IsSpent = elim (Option-cases s.meta) [
    | inl gone ↦ cc (rotate_missing hash new_hash client_id next_scope now later s (inl gone), r)
    | inr (old, hm) ↦ elim (Option-cases s.current_hash) [
      | inl gone ↦ cc (rotate_missing hash new_hash client_id next_scope now later s (inr gone), r)
      | inr (current, hc) ↦ IsSpent-from old current hm hc
    ]
  ]

step-Stays :
    (hash client_id : String) (expires_at : ℕ) (c : Call) (s : Storage)
    → IsFresh hash c
    → IsSpent hash client_id expires_at s
    → Stays hash client_id expires_at (step c s)
unfolding step alarm advance burn
step-Stays hash client_id expires_at (rotates presented new_hash client next_scope now later) s f
      v =
    elim (rotate_cases presented new_hash client next_scope now later s v.meta v.current v.has_meta
      v.has_current) [
        | inl (g, e) ↦
            rw (e, step)
              (inr (record {
                meta = advance v.meta next_scope later;
                current = new_hash;
                has_meta = refl;
                has_current = refl;
                replaced = f;
                remembered = ground (arith, v.remembered);
                client = v.client;
                expiry = v.expiry;
              }))
        | inr (_, inl e) ↦ rw (e, step) (inr v)
        | inr (_, inr e) ↦ rw (e, step) (inl (inr (burn v.meta, refl, refl)))
      ]
step-Stays hash client_id expires_at revokes s f v =
    rw (revoke-some s v.meta v.has_meta, step) (inl (inr (burn v.meta, refl, refl)))
step-Stays hash client_id expires_at alarms s f v = inl (inl refl)

run-Stays :
    (hash client_id : String) (expires_at : ℕ) (calls : List Call) (s : Storage)
    → All (IsFresh hash) calls
    → Stays hash client_id expires_at s
    → Stays hash client_id expires_at (run calls s)
unfolding run
run-Stays hash client_id expires_at [] s f st = st
run-Stays hash client_id expires_at (c ∷ calls) s (f, fs) (inl d) =
    run-Stays hash client_id expires_at calls (step c s) fs (inl (step-IsDead c s d))
run-Stays hash client_id expires_at (c ∷ calls) s (f, fs) (inr v) =
    run-Stays hash client_id expires_at calls (step c s) fs
      (step-Stays hash client_id expires_at c s f v)

-- Once a rotation has replaced a hash, and whatever rotations, revocations and alarms the family
-- receives after it, presenting that hash again on behalf of its client and before the expiry ends
-- the family: neither this call nor any later one rotates. The new hashes are assumed to differ
-- from it.
pub rotations_replay :
    (hash new_hash client_id next_scope : String) (now later : ℕ) (s : Storage) (meta : Meta)
    (calls : List Call) (new_hash' next_scope' : String) (now' later' : ℕ) (more : List Call)
    → (rotate hash new_hash client_id next_scope now later s).0 ≡ rotated meta
    → new_hash ≢ hash
    → All (IsFresh hash) calls
    → now' ≤ meta.absolute_expires_at
    → let t = run calls (rotate hash new_hash client_id next_scope now later s).1 in
      rotations (rotates hash new_hash' client_id next_scope' now' later' ∷ more) t ≡ []
unfolding rotations
rotations_replay hash new_hash client_id next_scope now later s meta calls new_hash' next_scope'
      now' later' more r n f h =
    elim (run-Stays hash client_id meta.absolute_expires_at calls _ f
      (inr (rotated-IsSpent hash new_hash client_id next_scope now later s meta r n))) [
        | inl d ↦
            rotations_dead (rotates hash new_hash' client_id next_scope' now' later' ∷ more) _ d
        | inr v ↦
            (let (nothing, dead) =
                replay_spent hash new_hash' client_id next_scope' now' later'
                  meta.absolute_expires_at _ v h in
              rw nothing (rotations_dead more _ dead))
      ]
