-- ===== src/Animation/Exclusive.antt =====
-- No two active animations have a DMX channel in common (custom_components/dmx/animation/engine.py).
use ha_artnet_led.Base.{
  ℕ, ◌≤◌, ◌≡◌, refl, sym, ap, ◌∙◌, Bool, true, false, ◌&&◌, ◌||◌, List, [], ◌∷◌, Option, some, none,
  ◌==◌, ==_iff, Bool-cases, some-injective, inl, inr, arith, if◌then◌else◌,
}
use ha_artnet_led.Base.Dict.{Dict, nat_eq, lookup, erase, Unique, lookup-erase, erase-Unique}
use ha_artnet_led.Base.Sets.{member}
use ha_artnet_led.Animation.Engine.{
  Animation, Engine, is_owner, release_one, release, cleanup_found,
}

-- Every channel of an active animation is owned by it, and every owner is active.
pub record IsExclusive (e : Engine) : Type 0 where
  pub owned :
      (id : ℕ) (a : Animation) (ch : ℕ)
      → lookup id e.active_animations ≡ some a
      → member ch a.controlled_indexes ≡ true
      → lookup ch e.dmx_channel_owners ≡ some id
  pub owner :
      (ch id : ℕ)
      → lookup ch e.dmx_channel_owners ≡ some id
      → (a : Animation) × (lookup id e.active_animations ≡ some a)
        × (member ch a.controlled_indexes ≡ true)
  pub numbered :
      (id : ℕ) (a : Animation) → lookup id e.active_animations ≡ some a → id ≤ e.animation_counter
  pub unique_owners : Unique e.dmx_channel_owners
  pub unique_active : Unique e.active_animations

release_one-Unique :
    (id ch : ℕ) (owners : Dict ℕ ℕ) → Unique owners → Unique (release_one id ch owners)
release_one-Unique id ch owners u = elim (Bool-cases (is_owner id (lookup ch owners))) [
  | inl y ↦ rw y (erase-Unique ch owners u)
  | inr n ↦ rw n u
]

lookup-release_one :
    (id ch c : ℕ) (owners : Dict ℕ ℕ)
    → Unique owners
    → lookup c (release_one id ch owners)
      ≡ (if (c == ch) && is_owner id (lookup c owners) then none else lookup c owners)
lookup-release_one id ch c owners u = elim (Bool-cases (c == ch)) [
  | inl y ↦
      let same : lookup ch owners ≡ lookup c owners =
        ap (λ (x : ℕ). lookup x owners) (sym ((==_iff c ch).0 y)) in
      elim (Bool-cases (is_owner id (lookup c owners))) [
        | inl o ↦ rw (same, y, o) (lookup-erase ch c owners u ∙ rw y refl)
        | inr no_owner ↦ rw (same, y, no_owner) refl
      ]
  | inr n ↦ elim (Bool-cases (is_owner id (lookup ch owners))) [
    | inl o ↦ rw (o, n) (lookup-erase ch c owners u ∙ rw n refl)
    | inr no_owner ↦ rw (no_owner, n) refl
  ]
]

release-Unique :
    (id : ℕ) (chs : List ℕ) (owners : Dict ℕ ℕ) → Unique owners → Unique (release id chs owners)
unfolding release
release-Unique id [] owners u = u
release-Unique id (ch ∷ chs) owners u = release-Unique id chs _ (release_one-Unique id ch owners u)

lookup-release :
    (id c : ℕ) (chs : List ℕ) (owners : Dict ℕ ℕ)
    → Unique owners
    → lookup c (release id chs owners)
      ≡ (if member c chs && is_owner id (lookup c owners) then none else lookup c owners)
unfolding release
lookup-release id c [] owners u = refl
lookup-release id c (ch ∷ chs) owners u =
    lookup-release id c chs _ (release_one-Unique id ch owners u)
    ∙ joined (c == ch) (member c chs) (lookup c owners) (lookup c (release_one id ch owners))
        (lookup-release_one id ch c owners u)
  where
    joined :
        (b m : Bool) (o p : Option ℕ)
        → p ≡ (if b && is_owner id o then none else o)
        → (if m && is_owner id p then none else p) ≡ (if (b || m) && is_owner id o then none else o)
    joined true true none p e = rw e refl
    joined true true (some x) p e = elim (Bool-cases (x == id)) [
      | inl y ↦ rw (e, y) refl
      | inr n ↦ rw (e, n, n) refl
    ]
    joined true false none p e = rw e refl
    joined true false (some x) p e = e
    joined false m o p e = rw e refl

-- What is left after animations are cleaned up: the others, with their channels.
pub record IsLess (e f : Engine) : Type 0 where
  pub active :
      (id : ℕ) (a : Animation)
      → lookup id f.active_animations ≡ some a
      → lookup id e.active_animations ≡ some a
  pub owners :
      (ch id : ℕ)
      → lookup ch f.dmx_channel_owners ≡ some id
      → lookup ch e.dmx_channel_owners ≡ some id
  pub counter : f.animation_counter ≡ e.animation_counter

not_none :
    (b : Bool) (o : Option ℕ) (id : ℕ)
    → (if b then none else o) ≡ some id
    → (b ≡ false) × (o ≡ some id)
not_none true o id h = absurd (cc)
not_none false o id h = (refl, h)

pub cleanup_found-IsExclusive :
    (id : ℕ) (found : Option Animation) (e : Engine)
    → lookup id e.active_animations ≡ found
    → IsExclusive e
    → IsExclusive (cleanup_found id found e)
      × IsLess e (cleanup_found id found e)
      × (lookup id (cleanup_found id found e).active_animations ≡ none)
cleanup_found-IsExclusive id none e there w =
    (w, record { active = λ i a h. h; owners = λ c i h. h; counter = refl }, there)
cleanup_found-IsExclusive id (some a) e there w = (
  record {
    owned = λ i b ch h m.
        let (other, before) = still i b h in
        lookup-release id ch a.controlled_indexes e.dmx_channel_owners w.unique_owners
        ∙ rw (w.owned i b ch before m) (not_released (member ch a.controlled_indexes) i other);
    owner = own;
    numbered = λ i b h. w.numbered i b (still i b h).1;
    unique_owners = release-Unique id a.controlled_indexes e.dmx_channel_owners w.unique_owners;
    unique_active = erase-Unique id e.active_animations w.unique_active;
  },
  record {
    active = λ i b h. (still i b h).1;
    owners = λ ch i h.
        (let g : (if member ch a.controlled_indexes && is_owner id (lookup ch e.dmx_channel_owners)
                then none
                else lookup ch e.dmx_channel_owners)
              ≡ some i =
            sym (lookup-release id ch a.controlled_indexes e.dmx_channel_owners w.unique_owners)
            ∙ h in
          (not_none _ _ i g).1);
    counter = refl;
  },
  lookup-erase id id e.active_animations w.unique_active ∙ rw ((==_iff id id).1 refl) refl,
)
  where
    not_released :
        (m : Bool) (i : ℕ)
        → (i == id) ≡ false
        → (if m && is_owner id (some i) then none else some i) ≡ some i
    not_released true i other = rw other refl
    not_released false i other = refl

    own :
        (ch i : ℕ)
        → lookup ch (release id a.controlled_indexes e.dmx_channel_owners) ≡ some i
        → (b : Animation) × (lookup i (erase id e.active_animations) ≡ some b)
          × (member ch b.controlled_indexes ≡ true)
    own ch i h =
        let left =
          sym (lookup-release id ch a.controlled_indexes e.dmx_channel_owners w.unique_owners)
          ∙ h in
        let (unreleased, before) =
          not_none (member ch a.controlled_indexes && is_owner id (lookup ch e.dmx_channel_owners))
            (lookup ch e.dmx_channel_owners) i left in
        let (b, active, has) = w.owner ch i before in
        elim (Bool-cases (i == id)) [
          | inl y ↦
              let same : a ≡ b = some-injective (
                sym there
                ∙ ap (λ (x : ℕ). lookup x e.active_animations) (sym ((==_iff i id).0 y))
                ∙ active) in
              let mem : member ch a.controlled_indexes ≡ true =
                ap (λ (x : Animation). member ch x.controlled_indexes) same ∙ has in
              let owns : is_owner id (lookup ch e.dmx_channel_owners) ≡ true =
                ap (is_owner id) before ∙ y in
              absurd (ground (arith, unreleased, mem, owns))
          | inr n ↦ (b, lookup-erase id i e.active_animations w.unique_active ∙ rw n active, has)
        ]

    still :
        (i : ℕ) (b : Animation)
        → lookup i (erase id e.active_animations) ≡ some b
        → ((i == id) ≡ false) × (lookup i e.active_animations ≡ some b)
    still i b h = elim (Bool-cases (i == id)) [
      | inl y ↦ absurd (
          let gone : none ≡ some b =
            sym (lookup-erase id i e.active_animations w.unique_active ∙ rw y refl) ∙ h in
          cc)
      | inr n ↦ (n, sym (lookup-erase id i e.active_animations w.unique_active ∙ rw n refl) ∙ h)
    ]
