-- ===== src/Animation/Engine.antt =====
-- `DmxAnimationEngine` of custom_components/dmx/animation/engine.py: which animation has which DMX
-- channels, and which coroutines go on.
--
-- An animation's id is its number; the time in the text of the id is left out. A coroutine is started
-- at once, up to its first sleep, as hass.async_create_task does, and cut at its sleeps; whether its
-- progress is complete, or the round raises, is handed in. The values of a frame are not modelled, only that one goes out.
use ha_artnet_led.Base.{
  ℕ, suc, Bool, true, false, not, List, [], ◌∷◌, ◌++◌, Option, some, none, ◌==◌, if◌then◌else◌,
}
use ha_artnet_led.Base.Dict.{Dict, nat_eq, lookup, insert, erase, contains}
use ha_artnet_led.Base.Sets.{member, add, discard}

pub record Animation : Type 0 where
  pub controlled_indexes : List ℕ

-- The engine, with the animations whose task is cancelled and those whose coroutine has not ended.
pub record Engine : Type 0 where
  pub active_animations : Dict ℕ Animation
  pub dmx_channel_owners : Dict ℕ ℕ
  pub animation_counter : ℕ
  pub cancelled : List ℕ
  pub running : List ℕ

abbrev pub new_engine : Engine
new_engine = record {
  active_animations = [];
  dmx_channel_owners = [];
  animation_counter = 0;
  cancelled = [];
  running = [];
}

abbrev pub is_owner : ℕ → Option ℕ → Bool
is_owner id none = false
is_owner id (some j) = j == id

-- The release of owned channels.
abbrev pub release_one : ℕ → ℕ → Dict ℕ ℕ → Dict ℕ ℕ
release_one id ch owners = if is_owner id (lookup ch owners) then erase ch owners else owners

unfoldable pub release : ℕ → List ℕ → Dict ℕ ℕ → Dict ℕ ℕ
release id [] owners = owners
release id (ch ∷ chs) owners = release id chs (release_one id ch owners)

-- `_cleanup_animation`
abbrev pub cleanup_found : ℕ → Option Animation → Engine → Engine
cleanup_found id none e = e
cleanup_found id (some a) e = record e {
  dmx_channel_owners = release id a.controlled_indexes e.dmx_channel_owners;
  active_animations = erase id e.active_animations;
}

unfoldable pub cleanup_animation : ℕ → Engine → Engine
unfolding release
cleanup_animation id e = cleanup_found id (lookup id e.active_animations) e

-- `_cancel_conflicting_animations`
abbrev pub conflict : Option ℕ → Engine → List ℕ
conflict none e = []
conflict (some id) e = if contains id e.active_animations then id ∷ [] else []

abbrev pub conflicting_animations : List ℕ → Engine → List ℕ
conflicting_animations [] e = []
conflicting_animations (ch ∷ chs) e =
    conflict (lookup ch e.dmx_channel_owners) e ++ conflicting_animations chs e

unfoldable pub cleanup_all : List ℕ → Engine → Engine
unfolding cleanup_animation
cleanup_all [] e = e
cleanup_all (id ∷ ids) e = cleanup_all ids (cleanup_animation id e)

abbrev pub cancel_conflicting_animations : List ℕ → Engine → Engine
cancel_conflicting_animations chs e = cleanup_all (conflicting_animations chs e) e

-- `_claim_dmx_channels`
unfoldable pub claim_dmx_channels : ℕ → List ℕ → Dict ℕ ℕ → Dict ℕ ℕ
claim_dmx_channels id [] owners = owners
claim_dmx_channels id (ch ∷ chs) owners = claim_dmx_channels id chs (insert ch id owners)

-- A step of `_run_animation` from its start or its sleep, with the frames that go out.
abbrev pub end_animation : ℕ → Engine → Engine
end_animation id e =
    let cleaned = cleanup_animation id e in record cleaned { running = discard id cleaned.running }

-- A round of the loop returns, with its progress complete or not, or raises before the frame is out.
pub data Round : Type 0 where
  returned : Bool → Round
  raised : Round

-- The rest of a round, when the animation is not cancelled.
abbrev pub run_round : ℕ → Round → Engine → List ℕ × Engine
run_round id (returned true) e = (id ∷ [], end_animation id e)
run_round id (returned false) e = (id ∷ [], e)
run_round id raised e = ([], end_animation id e)

unfoldable pub run_animation : ℕ → Round → Engine → List ℕ × Engine
unfolding cleanup_animation
run_animation id round e =
    if not (member id e.running)
    then ([], e)
    else (if member id e.cancelled then ([], end_animation id e) else run_round id round e)

-- `create_animation`, of an animation of the channels.
abbrev pub claimed : List ℕ → Engine → Engine
claimed chs e =
    let id = suc e.animation_counter in
    let free = cancel_conflicting_animations chs e in
    record free {
      dmx_channel_owners = claim_dmx_channels id chs free.dmx_channel_owners;
      animation_counter = id;
      running = id ∷ free.running;
    }

unfoldable pub create_animation : List ℕ → Round → Engine → List ℕ × Engine
unfolding cleanup_all claim_dmx_channels run_animation
create_animation chs round e =
    let id = suc e.animation_counter in
    let (frames, started) = run_animation id round (claimed chs e) in
    (
      frames,
      record started {
        active_animations =
            insert id (record { controlled_indexes = chs }) started.active_animations;
      },
    )

-- `cancel_animation`
unfoldable pub cancel_animation : ℕ → Engine → Bool × Engine
cancel_animation id e =
    if contains id e.active_animations
    then (true, record e { cancelled = add id e.cancelled })
    else (false, e)

-- `cancel_all_animations`
unfoldable pub cancel_each : Dict ℕ Animation → Engine → Engine
unfolding cancel_animation
cancel_each [] e = e
cancel_each ((id, a) ∷ d) e = cancel_each d (cancel_animation id e).1

unfoldable pub cancel_all_animations : Engine → Engine
unfolding cancel_each
cancel_all_animations e = cancel_each e.active_animations e

-- What happens to an engine, in any order.
pub data AnimationOperation : Type 0 where
  create : List ℕ → Round → AnimationOperation
  resume : ℕ → Round → AnimationOperation
  cancel : ℕ → AnimationOperation
  cancel_all : AnimationOperation

abbrev pub animate : AnimationOperation → Engine → Engine
animate (create chs round) e = (create_animation chs round e).1
animate (resume id round) e = (run_animation id round e).1
animate (cancel id) e = (cancel_animation id e).1
animate cancel_all e = cancel_all_animations e

unfoldable pub animate_all : List AnimationOperation → Engine → Engine
unfolding create_animation run_animation cancel_animation cancel_all_animations
animate_all [] e = e
animate_all (o ∷ os) e = animate_all os (animate o e)
