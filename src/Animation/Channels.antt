-- ===== src/Animation/Channels.antt =====
-- The operations of custom_components/dmx/animation/engine.py keep the channels exclusive.
use ha_artnet_led.Base.{
  ℕ, suc, ◌≤◌, ◌≡◌, refl, sym, ap, ◌∙◌, subst, true, false, List, [], ◌∷◌, ◌++◌, some, none, ◌==◌,
  ==_iff, Bool-cases, Option-cases, some-injective, inl, inr, arith, if◌then◌else◌,
}
use ha_artnet_led.Base.Dict.{
  Dict, nat_eq, lookup, insert, contains, Unique, lookup-insert, insert-Unique,
}
use ha_artnet_led.Base.Sets.{member}
use ha_artnet_led.Animation.Engine.{
  Animation, Engine, cleanup_animation, conflict, conflicting_animations, cleanup_all,
  cancel_conflicting_animations, claim_dmx_channels, run_animation, Round, returned, raised,
  run_round,
}
use ha_artnet_led.Animation.Exclusive.{IsExclusive, IsLess, cleanup_found-IsExclusive}

gone :
    (e f : Engine) (id : ℕ)
    → IsLess e f
    → lookup id e.active_animations ≡ none
    → lookup id f.active_animations ≡ none
gone e f id less h = elim (Option-cases (lookup id f.active_animations)) [
  | inl nothing ↦ nothing
  | inr (a, there) ↦ absurd (let no : none ≡ some a = sym h ∙ less.active id a there in cc)
]

pub cleanup_all-IsExclusive :
    (ids : List ℕ) (e : Engine)
    → IsExclusive e
    → IsExclusive (cleanup_all ids e)
      × IsLess e (cleanup_all ids e)
      × ((id : ℕ) → member id ids ≡ true → lookup id (cleanup_all ids e).active_animations ≡ none)
unfolding cleanup_all cleanup_animation
cleanup_all-IsExclusive [] e w =
    (w, record { active = λ i a h. h; owners = λ c i h. h; counter = refl }, λ id h. absurd (cc))
cleanup_all-IsExclusive (j ∷ ids) e w =
    let (w1, less1, none1) = cleanup_found-IsExclusive j (lookup j e.active_animations) e refl w in
    let f : Engine = cleanup_animation j e in
    let (w2, less2, none2) = cleanup_all-IsExclusive ids f w1 in
    (
      w2,
      record {
        active = λ i a h. less1.active i a (less2.active i a h);
        owners = λ c i h. less1.owners c i (less2.owners c i h);
        counter = less2.counter ∙ less1.counter;
      },
      λ id h. elim (Bool-cases (id == j)) [
        | inl y ↦
            gone f (cleanup_all ids f) id less2
              (ap (λ (x : ℕ). lookup x f.active_animations) ((==_iff id j).0 y) ∙ none1)
        | inr n ↦ none2 id (ground (arith, h, n))
      ],
    )

-- The active owner of a channel is among those in conflict.
pub conflict-member :
    (ch id : ℕ) (a : Animation) (chs : List ℕ) (e : Engine)
    → member ch chs ≡ true
    → lookup ch e.dmx_channel_owners ≡ some id
    → lookup id e.active_animations ≡ some a
    → member id (conflicting_animations chs e) ≡ true
conflict-member ch id a [] e m own act = absurd (cc)
conflict-member ch id a (c ∷ chs) e m own act = elim (Bool-cases (ch == c)) [
  | inl y ↦
      let same : lookup c e.dmx_channel_owners ≡ some id =
        ap (λ (x : ℕ). lookup x e.dmx_channel_owners) (sym ((==_iff ch c).0 y)) ∙ own in
      let found : contains id e.active_animations ≡ true = ground (arith, act) in
      rw (same, found) (ground arith)
  | inr n ↦
      member-append id (conflict (lookup c e.dmx_channel_owners) e) (conflicting_animations chs e)
        (conflict-member ch id a chs e (ground (arith, m, n)) own act)
]
  where
    member-append : (x : ℕ) (xs ys : List ℕ) → member x ys ≡ true → member x (xs ++ ys) ≡ true
    member-append x [] ys h = h
    member-append x (y ∷ xs) ys h = ground (arith, member-append x xs ys h)

lookup-claim :
    (id c : ℕ) (chs : List ℕ) (owners : Dict ℕ ℕ)
    → lookup c (claim_dmx_channels id chs owners)
      ≡ (if member c chs then some id else lookup c owners)
unfolding claim_dmx_channels
lookup-claim id c [] owners = refl
lookup-claim id c (ch ∷ chs) owners =
    lookup-claim id c chs (insert ch id owners) ∙ ground (arith, lookup-insert ch c id owners)

claim-Unique :
    (id : ℕ) (chs : List ℕ) (owners : Dict ℕ ℕ)
    → Unique owners
    → Unique (claim_dmx_channels id chs owners)
unfolding claim_dmx_channels
claim-Unique id [] owners u = u
claim-Unique id (ch ∷ chs) owners u = claim-Unique id chs _ (insert-Unique ch id owners u)

run_round-inactive :
    (id : ℕ) (round : Round) (e : Engine)
    → lookup id e.active_animations ≡ none
    → ((run_round id round e).1.active_animations ≡ e.active_animations)
      × ((run_round id round e).1.dmx_channel_owners ≡ e.dmx_channel_owners)
      × ((run_round id round e).1.animation_counter ≡ e.animation_counter)
unfolding cleanup_animation
run_round-inactive id (returned true) e h = rw h (refl, refl, refl)
run_round-inactive id (returned false) e h = (refl, refl, refl)
run_round-inactive id raised e h = rw h (refl, refl, refl)

-- A coroutine of an animation that is not active changes no table.
pub run-inactive :
    (id : ℕ) (round : Round) (e : Engine)
    → lookup id e.active_animations ≡ none
    → ((run_animation id round e).1.active_animations ≡ e.active_animations)
      × ((run_animation id round e).1.dmx_channel_owners ≡ e.dmx_channel_owners)
      × ((run_animation id round e).1.animation_counter ≡ e.animation_counter)
unfolding run_animation cleanup_animation
run-inactive id round e h = elim (Bool-cases (member id e.running)) [
  | inr n ↦ rw n (refl, refl, refl)
  | inl y ↦ elim (Bool-cases (member id e.cancelled)) [
    | inl c ↦ rw (y, c, h) (refl, refl, refl)
    | inr c ↦ rw (y, c) (run_round-inactive id round e h)
  ]
]

-- After the conflicts are cleaned up, the channels have no owner.
pub freed :
    (chs : List ℕ) (e : Engine) (ch : ℕ)
    → IsExclusive e
    → member ch chs ≡ true
    → lookup ch (cancel_conflicting_animations chs e).dmx_channel_owners ≡ none
freed chs e ch w m =
    let ids = conflicting_animations chs e in
    let (w1, less, cleaned) = cleanup_all-IsExclusive ids e w in
    elim (Option-cases (lookup ch (cancel_conflicting_animations chs e).dmx_channel_owners)) [
      | inl nothing ↦ nothing
      | inr (id, own) ↦
          let (a, act, has) = w1.owner ch id own in
          let conflicts =
            conflict-member ch id a chs e m (less.owners ch id own) (less.active id a act) in
          absurd (let no : none ≡ some a = sym (cleaned id conflicts) ∙ act in cc)
    ]

-- A new animation takes its channels.
module _ (id : ℕ) (chs : List ℕ) (f g : Engine) (w : IsExclusive f)
    (free : (ch : ℕ) → member ch chs ≡ true → lookup ch f.dmx_channel_owners ≡ none)
    (next : id ≡ suc f.animation_counter)
    (active : g.active_animations
      ≡ insert id (record { controlled_indexes = chs }) f.active_animations)
    (owners : g.dmx_channel_owners ≡ claim_dmx_channels id chs f.dmx_channel_owners)
    (counter : g.animation_counter ≡ id) where
  is_active :
      (i : ℕ)
      → lookup i g.active_animations ≡ (
          if i == id
          then some (record { controlled_indexes = chs })
          else lookup i f.active_animations)
  is_active i = ap (lookup i) active ∙ lookup-insert id i _ f.active_animations

  is_owned :
      (ch : ℕ)
      → lookup ch g.dmx_channel_owners
        ≡ (if member ch chs then some id else lookup ch f.dmx_channel_owners)
  is_owned ch = ap (lookup ch) owners ∙ lookup-claim id ch chs f.dmx_channel_owners

  taken_owned :
      (i : ℕ) (a : Animation) (ch : ℕ)
      → lookup i g.active_animations ≡ some a
      → member ch a.controlled_indexes ≡ true
      → lookup ch g.dmx_channel_owners ≡ some i
  taken_owned i a ch act has = elim (Bool-cases (i == id)) [
    | inl y ↦
        let this : record { controlled_indexes = chs } ≡ a =
          some-injective (sym (is_active i ∙ rw y refl) ∙ act) in
        let mine : member ch chs ≡ true =
          ap (λ (x : Animation). member ch x.controlled_indexes) this ∙ has in
        is_owned ch ∙ rw mine (ap some (sym ((==_iff i id).0 y)))
    | inr n ↦
        let own = w.owned i a ch (sym (is_active i ∙ rw n refl) ∙ act) has in
        elim (Bool-cases (member ch chs)) [
          | inl m ↦ absurd (let no : none ≡ some i = sym (free ch m) ∙ own in cc)
          | inr m ↦ is_owned ch ∙ rw m own
        ]
  ]

  taken_owner :
      (ch i : ℕ)
      → lookup ch g.dmx_channel_owners ≡ some i
      → (a : Animation) × (lookup i g.active_animations ≡ some a)
        × (member ch a.controlled_indexes ≡ true)
  taken_owner ch i own = elim (Bool-cases (member ch chs)) [
    | inl m ↦
        let this : id ≡ i = some-injective (sym (is_owned ch ∙ rw m refl) ∙ own) in
        (record { controlled_indexes = chs }, is_active i ∙ rw ((==_iff i id).1 (sym this)) refl, m)
    | inr m ↦
        let (a, act, has) = w.owner ch i (sym (is_owned ch ∙ rw m refl) ∙ own) in
        let older : (i == id) ≡ false = ground (arith, w.numbered i a act, next) in
        (a, is_active i ∙ rw older act, has)
  ]

  taken_numbered :
      (i : ℕ) (a : Animation) → lookup i g.active_animations ≡ some a → i ≤ g.animation_counter
  taken_numbered i a act = elim (Bool-cases (i == id)) [
    | inl y ↦ omega (arith, counter, (==_iff i id).0 y)
    | inr n ↦ omega (arith, counter, next, w.numbered i a (sym (is_active i ∙ rw n refl) ∙ act))
  ]

  pub taken-IsExclusive : IsExclusive g
  taken-IsExclusive = record {
    owned = taken_owned;
    owner = taken_owner;
    numbered = taken_numbered;
    unique_owners =
        subst (λ (d : Dict ℕ ℕ). Unique d) (sym owners)
          (claim-Unique id chs f.dmx_channel_owners w.unique_owners);
    unique_active =
        subst (λ (d : Dict ℕ Animation). Unique d) (sym active)
          (insert-Unique id (record { controlled_indexes = chs }) f.active_animations
            w.unique_active);
  }
