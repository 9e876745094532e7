-- ===== src/Animation/Conflicts.antt =====
-- Animations that are in conflict over a channel (custom_components/dmx/animation/engine.py).
use ha_artnet_led.Base.{
  ℕ, suc, ◌≡◌, refl, sym, ap, ◌∙◌, true, false, List, [], ◌∷◌, some, none, Bool-cases, Option-cases,
  some-injective, inl, inr, arith,
}
use ha_artnet_led.Base.Dict.{Dict, nat_eq, lookup, insert, contains}
use ha_artnet_led.Base.Sets.{member}
use ha_artnet_led.Animation.Engine.{
  Animation, Engine, new_engine, cleanup_animation, conflicting_animations,
  cancel_conflicting_animations, end_animation, run_animation, Round, returned, raised, run_round,
  claimed, create_animation, cancel_animation, cancel_each, cancel_all_animations,
  AnimationOperation, create, resume, cancel, cancel_all, animate, animate_all,
}
use ha_artnet_led.Animation.Exclusive.{IsExclusive, cleanup_found-IsExclusive}
use ha_artnet_led.Animation.Channels.{
  cleanup_all-IsExclusive, freed, run-inactive, taken-IsExclusive,
}

-- The number of the next animation is not that of an active one.
pub next-inactive :
    (chs : List ℕ) (e : Engine)
    → IsExclusive e
    → lookup (suc e.animation_counter) (cancel_conflicting_animations chs e).active_animations
      ≡ none
next-inactive chs e w =
    let (w1, less, cleaned) = cleanup_all-IsExclusive (conflicting_animations chs e) e w in
    elim (Option-cases
      (lookup (suc e.animation_counter) (cancel_conflicting_animations chs e).active_animations)) [
        | inl nothing ↦ nothing
        | inr (a, there) ↦ absurd (omega (arith, w1.numbered _ a there, less.counter))
      ]

pub create-IsExclusive :
    (chs : List ℕ) (round : Round) (e : Engine)
    → IsExclusive e
    → IsExclusive (create_animation chs round e).1
unfolding create_animation
create-IsExclusive chs round e w =
    let f : Engine = cancel_conflicting_animations chs e in
    let (w1, less, cleaned) = cleanup_all-IsExclusive (conflicting_animations chs e) e w in
    let id : ℕ = suc e.animation_counter in
    let (active, owners, counter) = run-inactive id round (claimed chs e) (next-inactive chs e w) in
    taken-IsExclusive id chs f (create_animation chs round e).1 w1 (λ ch m. freed chs e ch w m)
      (ap suc (sym less.counter)) (ap (insert id (record { controlled_indexes = chs })) active)
      owners counter

run_round-IsExclusive :
    (id : ℕ) (round : Round) (e : Engine)
    → IsExclusive e
    → IsExclusive (end_animation id e)
    → IsExclusive (run_round id round e).1
run_round-IsExclusive id (returned true) e w ended = ended
run_round-IsExclusive id (returned false) e w ended = w
run_round-IsExclusive id raised e w ended = ended

run-IsExclusive :
    (id : ℕ) (round : Round) (e : Engine) → IsExclusive e → IsExclusive (run_animation id round e).1
unfolding run_animation cleanup_animation
run-IsExclusive id round e w =
    let (cleaned, less, removed) =
      cleanup_found-IsExclusive id (lookup id e.active_animations) e refl w in
    let ended : IsExclusive (end_animation id e) = record {
      owned = cleaned.owned;
      owner = cleaned.owner;
      numbered = cleaned.numbered;
      unique_owners = cleaned.unique_owners;
      unique_active = cleaned.unique_active;
    } in
    elim (Bool-cases (member id e.running)) [
      | inr n ↦ rw n w
      | inl y ↦ elim (Bool-cases (member id e.cancelled)) [
        | inl c ↦ rw (y, c) ended
        | inr c ↦ rw (y, c) (run_round-IsExclusive id round e w ended)
      ]
    ]

cancel-IsExclusive : (id : ℕ) (e : Engine) → IsExclusive e → IsExclusive (cancel_animation id e).1
unfolding cancel_animation
cancel-IsExclusive id e w = elim (Bool-cases (contains id e.active_animations)) [
  | inr n ↦ rw n w
  | inl y ↦ rw y (record {
    owned = w.owned;
    owner = w.owner;
    numbered = w.numbered;
    unique_owners = w.unique_owners;
    unique_active = w.unique_active;
  })
]

cancel_each-IsExclusive :
    (d : Dict ℕ Animation) (e : Engine) → IsExclusive e → IsExclusive (cancel_each d e)
unfolding cancel_each
cancel_each-IsExclusive [] e w = w
cancel_each-IsExclusive ((id, a) ∷ d) e w =
    cancel_each-IsExclusive d (cancel_animation id e).1 (cancel-IsExclusive id e w)

animate-IsExclusive :
    (o : AnimationOperation) (e : Engine) → IsExclusive e → IsExclusive (animate o e)
unfolding cancel_all_animations
animate-IsExclusive (create chs round) e w = create-IsExclusive chs round e w
animate-IsExclusive (resume id round) e w = run-IsExclusive id round e w
animate-IsExclusive (cancel id) e w = cancel-IsExclusive id e w
animate-IsExclusive cancel_all e w = cancel_each-IsExclusive e.active_animations e w

animate_all-IsExclusive :
    (os : List AnimationOperation) (e : Engine) → IsExclusive e → IsExclusive (animate_all os e)
unfolding animate_all
animate_all-IsExclusive [] e w = w
animate_all-IsExclusive (o ∷ os) e w =
    animate_all-IsExclusive os (animate o e) (animate-IsExclusive o e w)

pub new_engine-IsExclusive : IsExclusive new_engine
new_engine-IsExclusive = record {
  owned = λ id a ch h m. absurd (cc);
  owner = λ ch id h. absurd (cc);
  numbered = λ id a h. absurd (cc);
  unique_owners = tt;
  unique_active = tt;
}

-- Whatever animations are created, go on, end and are cancelled on a new engine, in any order, two
-- active animations that control a common DMX channel are the same, and it is the one that the engine
-- has as the owner of the channel.
pub channel_has_one_animation :
    (os : List AnimationOperation) (id j ch : ℕ) (a b : Animation)
    → lookup id (animate_all os new_engine).active_animations ≡ some a
    → lookup j (animate_all os new_engine).active_animations ≡ some b
    → member ch a.controlled_indexes ≡ true
    → member ch b.controlled_indexes ≡ true
    → (id ≡ j) × (lookup ch (animate_all os new_engine).dmx_channel_owners ≡ some id)
channel_has_one_animation os id j ch a b act act' has has' =
    let w = animate_all-IsExclusive os new_engine new_engine-IsExclusive in
    (
      some-injective (sym (w.owned id a ch act has) ∙ w.owned j b ch act' has'),
      w.owned id a ch act has,
    )
