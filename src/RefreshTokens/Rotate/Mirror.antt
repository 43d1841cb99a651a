-- ===== src/RefreshTokens/Rotate/Mirror.antt =====
-- The row of a family and its object after a rotation.
-- About src/tokens/refresh-token.ts.
use keyforge.Prelude.{
  ℕ, ◌≤◌, String, ◌≡◌, refl, sym, inl, inr, true, List, [], ◌∷◌, arith, eq_iff, Bool-cases,
  IsMember, string_eq, option_eq, nat_eq, beq_refl, update, number, changes_one,
}
use keyforge.Security.Crypto.{Platform, hash_opaque_token}
use keyforge.Oauth.Errors.{returned}
use keyforge.Do.RefreshFamily
use keyforge.Do.RefreshFamily.{Storage, Meta, RotateResult}
use keyforge.Do.RefreshFamily.Fields.{IsRotation, rotate-IsRotation}
use keyforge.RefreshTokens.{Row, Store, is_unrevoked, at_family, family_of}
use keyforge.RefreshTokens.Rotate.{
  Rotated, rotated, RotateDraw, is_live_row, new_token, mirror, rotated_from, mirror_rotation,
  answer_rotation, rotate_refresh_token,
}

-- The row that mirrors what a rotation handed out.
pub record IsMirrored (p : Platform) (family_id : String) (r : Rotated) (rows : List Row)
    : Type 0 where
  pub row : Row
  pub present : IsMember row rows
  pub own : row.id ≡ family_id
  pub unrevoked : is_unrevoked row ≡ true
  pub hash : row.token_hash ≡ hash_opaque_token p r.token
  pub scope : row.scope ≡ r.scope

mirrored :
    (p : Platform) (family_id token : String) (now : ℕ) (meta : Meta) (rows : List Row)
    → 1 ≤ number (is_live_row family_id) rows
    → IsMirrored p family_id
        (rotated_from token meta)
        (update (is_live_row family_id) (mirror (hash_opaque_token p token) now meta) rows)
mirrored p family_id token now meta [] one = absurd (omega (arith, one))
mirrored p family_id token now meta (row ∷ rows) one =
    elim (Bool-cases (is_live_row family_id row)) [
      | inl live ↦ record {
        row = mirror (hash_opaque_token p token) now meta row;
        present = inl (rw live refl);
        own = (eq_iff _ _).0 (ground (arith, live));
        unrevoked = ground (arith, live);
        hash = refl;
        scope = refl;
      }
      | inr other ↦
          let rest = mirrored p family_id token now meta rows (ground (arith, other, one)) in
          record {
            row = rest.row;
            present = inr rest.present;
            own = rest.own;
            unrevoked = rest.unrevoked;
            hash = rest.hash;
            scope = rest.scope;
          }
    ]

-- A rotation that hands out a token: the object's answer, and the row and the object after it.
pub record IsHandedOut (p : Platform) (draw : RotateDraw) (presented client_id next_scope : String)
    (before after : Store) (r : Rotated) : Type 0 where
  pub meta : Meta
  pub rotation :
      IsRotation
        (hash_opaque_token p presented)
        (hash_opaque_token p (new_token draw presented))
        client_id
        next_scope
        draw.rotated_at
        draw.rotated_later
        (before.families (family_of presented))
        (after.families (family_of presented))
        meta
  pub handed : r ≡ rotated_from (new_token draw presented) meta
  pub live : number (is_live_row (family_of presented)) before.rows ≡ 1
  pub mirrors : IsMirrored p (family_of presented) r after.rows

rotated_injective : (a b : Rotated) → returned (rotated a) ≡ returned (rotated b) → a ≡ b
rotated_injective a b h = cc

mirror_rotation-rotated :
    (p : Platform) (draw : RotateDraw) (presented : String) (meta : Meta) (s : Store) (r : Rotated)
    → (mirror_rotation p draw presented meta s).0 ≡ returned (rotated r)
    → r ≡ rotated_from (new_token draw presented) meta
      × (number (is_live_row (family_of presented)) s.rows ≡ 1)
      × IsMirrored p (family_of presented) r (mirror_rotation p draw presented meta s).1.rows
      × ((mirror_rotation p draw presented meta s).1.families ≡ s.families)
unfolding mirror_rotation
mirror_rotation-rotated p draw presented meta s r h = elim (Bool-cases draw.outage) [
  | inl fails ↦ cc (rw fails at h)
  | inr works ↦ elim (Bool-cases (changes_one (is_live_row (family_of presented)) s.rows)) [
    | inr other ↦ cc (rw (works, other) at h)
    | inl one ↦
        let same = sym (rotated_injective _ _ (rw (works, one) at h)) in
        let live : number (is_live_row (family_of presented)) s.rows ≡ 1 = ground (arith, one) in
        rw (works, one, same)
          (
            refl,
            live,
            mirrored p (family_of presented) (new_token draw presented) draw.now meta s.rows
                (omega (arith, live)),
            refl,
          )
  ]
]

answer-rotated :
    (p : Platform) (draw : RotateDraw) (presented : String) (result : RotateResult) (s : Store)
    (r : Rotated)
    → (answer_rotation p draw presented result s).0 ≡ returned (rotated r)
    → (meta : Meta) × (result ≡ RefreshFamily.rotated meta)
unfolding answer_rotation
answer-rotated p draw presented (RefreshFamily.rotated meta) s r h = (meta, refl)
answer-rotated p draw presented (RefreshFamily.reuse_detected meta) s r h =
    absurd (elim (Bool-cases draw.outage) [
      | inl fails ↦ cc (rw fails at h)
      | inr works ↦ cc (rw works at h)
    ])
answer-rotated p draw presented (RefreshFamily.too_soon n) s r h = cc
answer-rotated p draw presented (RefreshFamily.generation_limit meta) s r h =
    absurd (elim (Bool-cases draw.outage) [
      | inl fails ↦ cc (rw fails at h)
      | inr works ↦ cc (rw works at h)
    ])
answer-rotated p draw presented RefreshFamily.revoked s r h = cc
answer-rotated p draw presented RefreshFamily.expired s r h = cc
answer-rotated p draw presented RefreshFamily.invalid s r h = cc

-- The object's answer, with its storage put back in the store.
answered :
    (p : Platform) (draw : RotateDraw) (presented client_id next_scope : String) (s : Store)
    (r : Rotated) (result : RotateResult) (storage : Storage) (meta : Meta)
    → result ≡ RefreshFamily.rotated meta
    → IsRotation
        (hash_opaque_token p presented)
        (hash_opaque_token p (new_token draw presented))
        client_id
        next_scope
        draw.rotated_at
        draw.rotated_later
        (s.families (family_of presented))
        storage
        meta
    → (answer_rotation p draw presented result
        (record s { families = at_family (family_of presented) (λ old. storage) s.families })).0
      ≡ returned (rotated r)
    → IsHandedOut p draw presented client_id next_scope s
        (answer_rotation p draw presented result
          (record s { families = at_family (family_of presented) (λ old. storage) s.families })).1
        r
unfolding answer_rotation
answered p draw presented client_id next_scope s r result storage meta e rotation h =
    let s' : Store = record s {
      families = at_family (family_of presented) (λ old. storage) s.families;
    } in
    let (handed, live, mirrors, same) =
      mirror_rotation-rotated p draw presented meta s' r (rw e at h) in
    rw e (record {
      meta = meta;
      rotation = rw (same, beq_refl (family_of presented)) rotation;
      handed = handed;
      live = live;
      mirrors = mirrors;
    })

-- A rotation hands out a token only if the object grants it and exactly one unrevoked row of the
-- family stands in the table; the object and that row then have the hash of the new token.
pub rotate_refresh_token-IsHandedOut :
    (p : Platform) (draw : RotateDraw) (presented client_id next_scope : String) (s : Store)
    (r : Rotated)
    → (rotate_refresh_token p draw presented client_id next_scope s).0 ≡ returned (rotated r)
    → IsHandedOut p draw presented client_id next_scope s
        (rotate_refresh_token p draw presented client_id next_scope s).1
        r
unfolding rotate_refresh_token
rotate_refresh_token-IsHandedOut p draw presented client_id next_scope s r h =
    let hash : String = hash_opaque_token p presented in
    let new_hash : String = hash_opaque_token p (new_token draw presented) in
    let old : Storage = s.families (family_of presented) in
    let (meta, e) =
      answer-rotated p draw presented
        (RefreshFamily.rotate hash new_hash client_id next_scope draw.rotated_at draw.rotated_later
          old).0
        _ r h in
    answered p draw presented client_id next_scope s r _ _ meta e
      (rotate-IsRotation hash new_hash client_id next_scope draw.rotated_at draw.rotated_later old
        meta e)
      h
