-- ===== src/Do/RefreshFamily/Tests.antt =====
-- A refresh family at concrete calls.
-- About src/do/RefreshTokenFamilyDO.ts.
use keyforge.Prelude.{
  ◌≤◌, ◌≡◌, refl, ◌↔◌, false, none, some, List, [], ◌∷◌, arith, eq_iff, length, string_eq,
  option_eq, nat_eq,
}
use keyforge.Do.RefreshFamily.{
  Init, Meta, Storage, Call, Event, inits, receives, alarms, rotates, rotated, init, init_keys,
  empty, rotate, run, rotations, first_meta, advance, rotate_current, rotate_other, was_used,
}
use keyforge.Do.RefreshFamily.Fields.{rotate-rotated_iff, IsGranted}
use keyforge.Do.RefreshFamily.Bounds.{rotations-init_bounded, IsSpaced}
use keyforge.Do.RefreshFamily.Owner.{AreOwned, events-AreOwned}
use keyforge.Do.RefreshFamily.Reuse.{rotations_replay}

abbrev grant : Init
grant = record {
  user_id = "usr_1";
  client_id = "app";
  resource = "https://api.example";
  scope = "openid";
  auth_time = 90;
  current_token_hash = "h0";
  absolute_expires_at = 1000;
}

abbrev family : Storage
family = record {
  meta = some (record {
    user_id = "usr_1";
    client_id = "app";
    resource = "https://api.example";
    scope = "openid";
    auth_time = some 90;
    absolute_expires_at = 1000;
    created_at = 100;
    generation = 0;
    revoked = false;
    last_rotated_at = some 100;
  });
  current_hash = some "h0";
  used_hashes = none;
  used = [];
  alarm_at = some 1060000;
}

abbrev meta : Meta
meta = record {
  user_id = "usr_1";
  client_id = "app";
  resource = "https://api.example";
  scope = "openid";
  auth_time = some 90;
  absolute_expires_at = 1000;
  created_at = 100;
  generation = 0;
  revoked = false;
  last_rotated_at = some 100;
}

init-family : init grant 100 empty ≡ family
unfolding init empty
init-family = refl

-- A second initialisation, for another user, is passed over.
init_twice :
    init (record grant { user_id = "usr_2" }) 120 (init grant 100 empty) ≡ init grant 100 empty
unfolding init init_keys empty
init_twice = refl

abbrev use_twice : List Call
use_twice =
    rotates "h0" "h1" "app" "openid" 101 101
    ∷ rotates "h1" "h2" "app" "openid" 120 120
    ∷ rotates "h0" "h3" "app" "openid" 130 130
    ∷ rotates "h2" "h4" "app" "openid" 140 140
    ∷ []

two_rotations : length (rotations use_twice family) ≡ 2
unfolding rotations rotate rotate_current rotate_other was_used
two_rotations = refl

rotate-rotated_iff_example :
    ((rotate "h0" "h1" "app" "openid" 101 101 family).0 ≡ rotated (advance meta "openid" 101))
    ↔ IsGranted "h0" "app" 101 101 meta "h0"
rotate-rotated_iff_example =
    rotate-rotated_iff "h0" "h1" "app" "openid" 101 101 family meta "h0" refl refl

rotations-init_bounded_example :
    let metas = rotations use_twice (init grant 100 empty) in
    (length metas ≤ 10000) × IsSpaced (first_meta grant 100) metas
rotations-init_bounded_example = rotations-init_bounded grant 100 use_twice

rotations_replay_example :
    rotations
      (rotates "h0" "h3" "app" "openid" 130 130 ∷ rotates "h2" "h4" "app" "openid" 140 140 ∷ [])
      (run
        (rotates "h1" "h2" "app" "openid" 120 120 ∷ [])
        (rotate "h0" "h1" "app" "openid" 101 101 family).1)
    ≡ []
unfolding rotate rotate_current advance
rotations_replay_example =
    rotations_replay "h0" "h1" "app" "openid" 101 101 family (advance meta "openid" 101)
      (rotates "h1" "h2" "app" "openid" 120 120 ∷ []) "h3" "openid" 130 130
      (rotates "h2" "h4" "app" "openid" 140 140 ∷ []) refl (ground (arith, eq_iff "h1" "h0"))
      (ground (arith, eq_iff "h2" "h0"), tt) (omega arith)

-- A second initialisation, an alarm, and one for another user.
abbrev history : List Event
history =
    inits grant 100
    ∷ receives (rotates "h0" "h1" "app" "openid" 101 101)
    ∷ inits (record grant { user_id = "usr_2" }) 110
    ∷ receives (rotates "h1" "h2" "app" "openid" 120 120)
    ∷ receives alarms
    ∷ inits (record grant { user_id = "usr_2" }) 2000
    ∷ []

events-AreOwned_example : AreOwned none history empty
events-AreOwned_example = events-AreOwned history
