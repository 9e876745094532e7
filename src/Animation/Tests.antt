-- ===== src/Animation/Tests.antt =====
-- Runs of the animation engine, and the theorems about it at concrete inputs.
use ha_artnet_led.Base.{ℕ, ◌≡◌, refl, true, false, List, [], ◌∷◌, some, none}
use ha_artnet_led.Base.Dict.{nat_eq, lookup}
use ha_artnet_led.Animation.Engine.{
  Engine, new_engine, AnimationOperation, create, resume, animate_all, returned, release,
  cleanup_animation, cleanup_all, claim_dmx_channels, run_animation, create_animation,
  cancel_animation,
}
use ha_artnet_led.Animation.Conflicts.{
  channel_has_one_animation, new_engine-IsExclusive, create-IsExclusive,
}
use ha_artnet_led.Animation.RunsOn.{conflicting_animation_runs_on}

abbrev first_id : ℕ
first_id = 1

abbrev second_id : ℕ
second_id = 2

abbrev fade_operations : List AnimationOperation
fade_operations =
    create (1 ∷ 2 ∷ []) (returned false)
    ∷ create (2 ∷ 3 ∷ []) (returned false)
    ∷ resume 1 (returned true)
    ∷ resume 2 (returned false)
    ∷ []

channel_has_one_animation_example :
    (second_id ≡ second_id)
    × (lookup 2 (animate_all fade_operations new_engine).dmx_channel_owners ≡ some second_id)
unfolding animate_all create_animation run_animation cancel_animation cleanup_animation cleanup_all
    release claim_dmx_channels
channel_has_one_animation_example =
    channel_has_one_animation fade_operations second_id second_id 2
      (record { controlled_indexes = 2 ∷ 3 ∷ [] }) (record { controlled_indexes = 2 ∷ 3 ∷ [] }) refl
      refl refl refl

abbrev fading : Engine
fading = (create_animation (1 ∷ 2 ∷ []) (returned false) new_engine).1

conflicting_animation_runs_on_example :
    (lookup first_id (create_animation (2 ∷ 3 ∷ []) (returned false) fading).1.active_animations
      ≡ none)
    × ((run_animation first_id
          (returned false)
          (create_animation (2 ∷ 3 ∷ []) (returned false) fading).1).0
        ≡ first_id ∷ [])
    × (cancel_animation first_id (create_animation (2 ∷ 3 ∷ []) (returned false) fading).1
        ≡ (false, (create_animation (2 ∷ 3 ∷ []) (returned false) fading).1))
unfolding create_animation run_animation cleanup_animation cleanup_all release claim_dmx_channels
conflicting_animation_runs_on_example =
    conflicting_animation_runs_on (2 ∷ 3 ∷ []) (returned false) false fading first_id 2
      (record { controlled_indexes = 1 ∷ 2 ∷ [] })
      (create-IsExclusive (1 ∷ 2 ∷ []) (returned false) new_engine new_engine-IsExclusive) refl refl
      refl refl refl
