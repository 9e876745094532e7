-- ===== src/Animation/RunsOn.antt =====
-- An animation that loses its channels goes on (custom_components/dmx/animation/engine.py).
use ha_artnet_led.Base.{
  ℕ, suc, ◌≡◌, refl, ap, ◌∙◌, Bool, true, false, List, [], ◌∷◌, Option, some, none, ◌==◌,
  Bool-cases, inl, inr, arith,
}
use ha_artnet_led.Base.Dict.{nat_eq, lookup, contains, lookup-insert}
use ha_artnet_led.Base.Sets.{member, discard}
use ha_artnet_led.Animation.Engine.{
  Animation, Engine, cleanup_found, cleanup_animation, conflicting_animations, cleanup_all,
  run_animation, Round, returned, raised, run_round, claimed, create_animation, cancel_animation,
}
use ha_artnet_led.Base.Sets.{member-discard}
use ha_artnet_led.Animation.Exclusive.{IsExclusive}
use ha_artnet_led.Animation.Channels.{cleanup_all-IsExclusive, conflict-member, run-inactive}
use ha_artnet_led.Animation.Conflicts.{next-inactive}

cleanup_found-running :
    (id : ℕ) (found : Option Animation) (e : Engine)
    → ((cleanup_found id found e).running ≡ e.running)
      × ((cleanup_found id found e).cancelled ≡ e.cancelled)
cleanup_found-running id none e = (refl, refl)
cleanup_found-running id (some a) e = (refl, refl)

-- A clean-up stops no coroutine.
cleanup_all-running :
    (ids : List ℕ) (e : Engine)
    → ((cleanup_all ids e).running ≡ e.running) × ((cleanup_all ids e).cancelled ≡ e.cancelled)
unfolding cleanup_all cleanup_animation
cleanup_all-running [] e = (refl, refl)
cleanup_all-running (id ∷ ids) e =
    let (running, cancelled) = cleanup_all-running ids (cleanup_animation id e) in
    let (running', cancelled') = cleanup_found-running id (lookup id e.active_animations) e in
    (running ∙ running', cancelled ∙ cancelled')

run_round-others :
    (id j : ℕ) (round : Round) (e : Engine)
    → (j == id) ≡ false
    → lookup id e.active_animations ≡ none
    → (member j (run_round id round e).1.running ≡ member j e.running)
      × ((run_round id round e).1.cancelled ≡ e.cancelled)
unfolding cleanup_animation
run_round-others id j (returned true) e other h =
    rw h (member-discard j id e.running ∙ ground (arith, other), refl)
run_round-others id j (returned false) e other h = (refl, refl)
run_round-others id j raised e other h =
    rw h (member-discard j id e.running ∙ ground (arith, other), refl)

-- A step of another coroutine does not stop one.
run-others :
    (id j : ℕ) (round : Round) (e : Engine)
    → (j == id) ≡ false
    → lookup id e.active_animations ≡ none
    → (member j (run_animation id round e).1.running ≡ member j e.running)
      × ((run_animation id round e).1.cancelled ≡ e.cancelled)
unfolding run_animation cleanup_animation
run-others id j round e other h = elim (Bool-cases (member id e.running)) [
  | inr n ↦ rw n (refl, refl)
  | inl y ↦ elim (Bool-cases (member id e.cancelled)) [
    | inl c ↦ rw (y, c, h) (stays, refl)
    | inr c ↦ rw (y, c) (run_round-others id j round e other h)
  ]
]
  where
    stays : member j (discard id e.running) ≡ member j e.running
    stays = member-discard j id e.running ∙ ground (arith, other)

goes_on :
    (id : ℕ) (complete : Bool) (e : Engine)
    → member id e.running ≡ true
    → member id e.cancelled ≡ false
    → (run_animation id (returned complete) e).0 ≡ id ∷ []
unfolding run_animation
goes_on id true e y c = rw (y, c) refl
goes_on id false e y c = rw (y, c) refl

refused :
    (id : ℕ) (e : Engine)
    → lookup id e.active_animations ≡ none
    → cancel_animation id e ≡ (false, e)
unfolding cancel_animation
refused id e h =
    let missing : contains id e.active_animations ≡ false = ground (arith, h) in rw missing refl

-- When an animation is created on a channel of an active one whose coroutine has not ended and is
-- not cancelled, the older one leaves the table of active animations, but its coroutine goes on: its
-- next step, unless it raises, hands out one more frame for its channels, complete or not, and
-- cancel_animation refuses to cancel it and changes nothing.
pub conflicting_animation_runs_on :
    (chs : List ℕ) (round : Round) (complete : Bool) (e : Engine) (id ch : ℕ) (a : Animation)
    → IsExclusive e
    → lookup id e.active_animations ≡ some a
    → member ch a.controlled_indexes ≡ true
    → member ch chs ≡ true
    → member id e.running ≡ true
    → member id e.cancelled ≡ false
    → (lookup id (create_animation chs round e).1.active_animations ≡ none)
      × ((run_animation id (returned complete) (create_animation chs round e).1).0 ≡ id ∷ [])
      × (cancel_animation id (create_animation chs round e).1
          ≡ (false, (create_animation chs round e).1))
unfolding create_animation
conflicting_animation_runs_on chs round complete e id ch a w act has wanted running cancelled =
    let ids = conflicting_animations chs e in
    let new : ℕ = suc e.animation_counter in
    let g : Engine = (create_animation chs round e).1 in
    let (w1, less, cleaned) = cleanup_all-IsExclusive ids e w in
    let (kept, kept') = cleanup_all-running ids e in
    let free = next-inactive chs e w in
    let (active, owners, counter) = run-inactive new round (claimed chs e) free in
    let older : (id == new) ≡ false = ground (arith, w.numbered id a act) in
    let (there, there') = run-others new id round (claimed chs e) older free in
    let left = cleaned id (conflict-member ch id a chs e wanted (w.owned id a ch act has) act) in
    let lost : lookup id g.active_animations ≡ none =
      lookup-insert new id (record { controlled_indexes = chs })
        (run_animation new round (claimed chs e)).1.active_animations
      ∙ rw older (ap (lookup id) active ∙ left) in
    let still : member id g.running ≡ true = there ∙ rw older (ap (member id) kept ∙ running) in
    let uncancelled : member id g.cancelled ≡ false = ap (member id) (there' ∙ kept') ∙ cancelled in
    (lost, goes_on id complete g still uncancelled, refused id g lost)
