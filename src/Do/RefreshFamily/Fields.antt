-- ===== src/Do/RefreshFamily/Fields.antt =====
-- The effect of one rotation, case by case.
-- About src/do/RefreshTokenFamilyDO.ts.
use keyforge.Prelude.{
  ℕ, ◌-◌, ◌≤◌, ◌<◌, ◌≡◌, ◌≢◌, ◌↔◌, refl, sym, ap, ◌⊎◌, inl, inr, String, true, false, none, some,
  ◌∙◌, ◌∷◌, arith, eq_iff, if◌then◌else◌, Bool-cases, leb, ltb, ◌&&◌, ◌==◌, Option-cases, string_eq,
}
use keyforge.Env.{minimum_rotation_interval_seconds, maximum_generation}
use keyforge.Do.RefreshFamily.{
  Meta, Storage, RotateResult, rotated, reuse_detected, invalid, burn, advance, elapsed, rotate,
  rotate_current, rotate_other, rotation, or_else, was_used, rotate_stored, rotate_family, revoke,
}

-- A rotation is granted on these conditions.
pub record IsGranted (presented client_id : String) (now later : ℕ) (meta : Meta) (current : String)
    : Type 0 where
  pub is_current : presented ≡ current
  pub client : meta.client_id ≡ client_id
  pub unrevoked : meta.revoked ≡ false
  pub in_time : now ≤ meta.absolute_expires_at
  pub below_limit : meta.generation < maximum_generation
  pub spaced :
      (meta.generation ≡ 0)
      ⊎ (minimum_rotation_interval_seconds ≤ later - or_else meta.last_rotated_at meta.created_at)

module _ (presented new_hash client_id next_scope : String) (now later : ℕ) (s : Storage)
    (meta : Meta) (current : String) (has_meta : s.meta ≡ some meta)
    (has_current : s.current_hash ≡ some current) where
  abbrev pub rotated_storage : Storage
  rotated_storage = record s {
    meta = some (advance meta next_scope later);
    current_hash = some new_hash;
    used = current ∷ s.used;
  }

  rotate_open :
      rotate presented new_hash client_id next_scope now later s
      ≡ rotate_family presented new_hash client_id next_scope now later meta current s
  unfolding rotate
  rotate_open = rw (has_meta, has_current, rotate_stored)

  granted :
      IsGranted presented client_id now later meta current
      → rotate_family presented new_hash client_id next_scope now later meta current s
        ≡ (rotated (advance meta next_scope later), rotated_storage)
  unfolding rotate_family rotate_current elapsed
  granted g = ground (arith, eq_iff presented current, eq_iff meta.client_id client_id)

  abbrev pub burned_storage : Storage
  burned_storage = record s { meta = some (burn meta) }

  abbrev pub IsRefused : RotateResult × Storage → Type 0
  IsRefused r = (rotation r.0 ≡ none) × ((r.1 ≡ s) ⊎ (r.1 ≡ burned_storage))

  -- Either the conditions hold and the family advances, or nothing but the revocation changes.
  current_cases :
      presented ≡ current
      → meta.client_id ≡ client_id
      → meta.revoked ≡ false
      → now ≤ meta.absolute_expires_at
      → IsGranted presented client_id now later meta current
        ⊎ IsRefused (rotate_current current new_hash next_scope later meta s)
  unfolding rotate_current elapsed
  current_cases p c r t = elim (Bool-cases (leb maximum_generation meta.generation)) [
    | inl over ↦ inr (rw over refl, inr (rw over refl))
    | inr below ↦
        elim (Bool-cases
          (ltb 0 meta.generation && ltb (elapsed meta later) minimum_rotation_interval_seconds)) [
            | inl soon ↦ inr (rw (below, soon) refl, inl (rw (below, soon) refl))
            | inr spaced ↦ inl (record {
              is_current = p;
              client = c;
              unrevoked = r;
              in_time = t;
              below_limit = ground arith;
              spaced = ground arith;
            })
          ]
  ]

  other-IsRefused : IsRefused (rotate_other presented meta s)
  unfolding rotate_other
  other-IsRefused = ground arith

  abbrev Passes : Type 0
  Passes = (meta.client_id ≡ client_id) × (meta.revoked ≡ false) × (now ≤ meta.absolute_expires_at)

  family_passes :
      Passes
      → rotate_family presented new_hash client_id next_scope now later meta current s ≡ (
          if presented == current
          then rotate_current current new_hash next_scope later meta s
          else rotate_other presented meta s)
  unfolding rotate_family
  family_passes h = ground (arith, eq_iff meta.client_id client_id)

  family_fails :
      Passes
      ⊎ IsRefused (rotate_family presented new_hash client_id next_scope now later meta current s)
  unfolding rotate_family
  family_fails = ground (arith, eq_iff meta.client_id client_id)

  family_cases :
      IsGranted presented client_id now later meta current
      ⊎ IsRefused (rotate_family presented new_hash client_id next_scope now later meta current s)
  family_cases = elim family_fails [
    | inr refused ↦ inr refused
    | inl h ↦ elim (Bool-cases (presented == current)) [
      | inl p ↦ rw (family_passes h, p) (current_cases ((eq_iff _ _).0 p) h.0 h.1 h.2)
      | inr o ↦ inr (rw (family_passes h, o) other-IsRefused)
    ]
  ]

  -- Either the conditions hold and the family advances, or no token is granted and nothing but the
  -- revocation changes.
  pub rotate_cases :
      (IsGranted presented client_id now later meta current
        × (rotate presented new_hash client_id next_scope now later s
            ≡ (rotated (advance meta next_scope later), rotated_storage)))
      ⊎ IsRefused (rotate presented new_hash client_id next_scope now later s)
  rotate_cases =
      rw rotate_open (elim family_cases [ inl g ↦ inl (g, granted g) | inr refused ↦ inr refused ])

-- A hash that is remembered and not current: the family is burnt.
pub rotate_used :
    (presented new_hash client_id next_scope : String) (now later : ℕ) (s : Storage) (meta : Meta)
    (current : String)
    → s.meta ≡ some meta
    → s.current_hash ≡ some current
    → meta.client_id ≡ client_id
    → meta.revoked ≡ false
    → now ≤ meta.absolute_expires_at
    → current ≢ presented
    → was_used presented s ≡ true
    → rotate presented new_hash client_id next_scope now later s
      ≡ (reuse_detected (burn meta), record s { meta = some (burn meta) })
unfolding rotate_other
rotate_used presented new_hash client_id next_scope now later s meta current hm hc c r t n u =
    rotate_open presented new_hash client_id next_scope now later s meta current hm hc
    ∙ family_passes presented new_hash client_id next_scope now later s meta current hm hc (c, r, t)
    ∙ ground (arith, eq_iff presented current)

-- Without both keys nothing is granted and nothing changes.
pub rotate_missing :
    (presented new_hash client_id next_scope : String) (now later : ℕ) (s : Storage)
    → (s.meta ≡ none) ⊎ (s.current_hash ≡ none)
    → rotate presented new_hash client_id next_scope now later s ≡ (invalid, s)
unfolding rotate
rotate_missing presented new_hash client_id next_scope now later s h =
    ground (arith, Option-cases s.meta, Option-cases s.current_hash)

pub revoke-none : (s : Storage) → s.meta ≡ none → revoke s ≡ s
unfolding revoke
revoke-none s h = ground arith

pub revoke-some :
    (s : Storage) (meta : Meta)
    → s.meta ≡ some meta
    → revoke s ≡ record s { meta = some (burn meta) }
unfolding revoke
revoke-some s meta h = ground arith

-- A family with its keys rotates exactly if the presented hash is the current one, the client is
-- the family's, it is neither revoked nor past its expiry nor at the maximum generation, and the
-- minimum interval has passed since the last rotation, which the first rotation need not wait for.
pub rotate-rotated_iff :
    (presented new_hash client_id next_scope : String) (now later : ℕ) (s : Storage) (meta : Meta)
    (current : String)
    → s.meta ≡ some meta
    → s.current_hash ≡ some current
    → ((rotate presented new_hash client_id next_scope now later s).0
        ≡ rotated (advance meta next_scope later))
      ↔ IsGranted presented client_id now later meta current
rotate-rotated_iff presented new_hash client_id next_scope now later s meta current hm hc =
    elim (rotate_cases presented new_hash client_id next_scope now later s meta current hm hc) [
      | inl (g, e) ↦ (λ _. g, λ _. rw e)
      | inr (r, _) ↦ (
        λ h. cc,
        λ g. cc (
          rotate_open presented new_hash client_id next_scope now later s meta current hm hc,
          granted presented new_hash client_id next_scope now later s meta current hm hc g,
          r,
        ),
      )
    ]

-- What a rotation by a family comes from and leads to.
pub record IsRotation (presented new_hash client_id next_scope : String) (now later : ℕ)
    (before after : Storage) (answer : Meta) : Type 0 where
  pub meta : Meta
  pub current : String
  pub had_meta : before.meta ≡ some meta
  pub granted_by : IsGranted presented client_id now later meta current
  pub advanced : answer ≡ advance meta next_scope later
  pub for_scope : answer.scope ≡ next_scope
  pub for_client : answer.client_id ≡ client_id
  pub stored : after.meta ≡ some answer
  pub stored_hash : after.current_hash ≡ some new_hash

advance-scope :
    (meta : Meta) (next_scope : String) (now : ℕ) → (advance meta next_scope now).scope ≡ next_scope
unfolding advance
advance-scope meta next_scope now = refl

advance-client_id :
    (meta : Meta) (next_scope : String) (now : ℕ)
    → (advance meta next_scope now).client_id ≡ meta.client_id
unfolding advance
advance-client_id meta next_scope now = refl

rotated-injective : (a b : Meta) → rotated a ≡ rotated b → a ≡ b
rotated-injective a b h = cc

pub rotate-IsRotation :
    (presented new_hash client_id next_scope : String) (now later : ℕ) (s : Storage) (answer : Meta)
    → (rotate presented new_hash client_id next_scope now later s).0 ≡ rotated answer
    → IsRotation presented new_hash client_id next_scope now later s
        (rotate presented new_hash client_id next_scope now later s).1
        answer
rotate-IsRotation presented new_hash client_id next_scope now later s answer h =
    elim (Option-cases s.meta) [
      | inl none_meta ↦
          cc (h, rotate_missing presented new_hash client_id next_scope now later s (inl none_meta))
      | inr (meta, hm) ↦ elim (Option-cases s.current_hash) [
        | inl none_hash ↦
            cc (
              h,
              rotate_missing presented new_hash client_id next_scope now later s (inr none_hash),
            )
        | inr (current, hc) ↦
            elim (rotate_cases presented new_hash client_id next_scope now later s meta current hm
              hc) [
                | inr (r, _) ↦ cc
                | inl (g, e) ↦
                    let same = sym (rotated-injective _ _ (sym (ap (λ x. x.0) e) ∙ h)) in
                    record {
                      meta = meta;
                      current = current;
                      had_meta = hm;
                      granted_by = g;
                      advanced = same;
                      for_scope = ap (λ m. m.scope) same ∙ advance-scope meta next_scope later;
                      for_client =
                          ap (λ m. m.client_id) same
                          ∙ advance-client_id meta next_scope later
                          ∙ g.client;
                      stored = rw (e, same) refl;
                      stored_hash = rw e refl;
                    }
              ]
      ]
    ]
