-- ===== src/Universe/Values.antt =====
-- The channel values that the updates of `DmxUniverse` leave, of custom_components/dmx/io/dmx_io.py.
use ha_artnet_led.Base.{
  ℕ, ◌≡◌, refl, ◌∙◌, Bool, false, List, [], ◌∷◌, Option, some, none, ==_iff, if◌then◌else◌, arith,
}
use ha_artnet_led.Base.Dict.{Dict, nat_eq, lookup, insert, lookup-insert, Unique}
use ha_artnet_led.Universe.State.{Universe, elem, is_locked, write_channels, add_callbacks}
use ha_artnet_led.Universe.Send.{update_value, apply_updates, restore_constants}

-- The value that an update writes, seen from one channel.
abbrev pub updated : Bool → ℕ → Option ℕ → Option ℕ
updated locked v old = if locked then old else some v

write_channels_constants :
    (chs : List ℕ) (v : ℕ) (s : Bool) (u : Universe)
    → (write_channels chs v s u).1.constant_values ≡ u.constant_values
unfolding write_channels
write_channels_constants [] v s u = refl
write_channels_constants (ch ∷ chs) v s u =
    let w : Universe = record u { channel_values = insert ch v u.channel_values } in
    ground (arith, write_channels_constants chs v s w, write_channels_constants chs v s u)

pub write_channels_values :
    (chs : List ℕ) (v : ℕ) (s : Bool) (u : Universe) (j : ℕ)
    → lookup j (write_channels chs v s u).1.channel_values ≡ (
        if elem j chs
        then updated (is_locked j s u) v (lookup j u.channel_values)
        else lookup j u.channel_values)
unfolding write_channels
write_channels_values [] v s u j = refl
write_channels_values (ch ∷ chs) v s u j =
    let w : Universe = record u { channel_values = insert ch v u.channel_values } in
    ground (
      arith,
      write_channels_values chs v s w j,
      write_channels_values chs v s u j,
      lookup-insert ch j v u.channel_values,
      ==_iff j ch,
    )

-- The view of a dict through another one that takes precedence.
abbrev pub over : Option ℕ → Option ℕ → Option ℕ
over none old = old
over (some v) old = some v

pub apply_updates_values :
    (d : Dict ℕ ℕ) (s : Bool) (u : Universe) (acc : List ℕ) (j : ℕ)
    → Unique d
    → lookup j (apply_updates d s u acc).1.channel_values ≡ (
        if is_locked j s u
        then lookup j u.channel_values
        else over (lookup j d) (lookup j u.channel_values))
unfolding apply_updates update_value
apply_updates_values [] s u acc j h = ground arith
apply_updates_values ((ch, v) ∷ d) s u acc j (new, h) =
    let (callbacks, r) = update_value (ch ∷ []) v false s false u in
    let one = write_channels_values (ch ∷ []) v s u j in
    ground (
      arith,
      one,
      write_channels_constants (ch ∷ []) v s u,
      apply_updates_values d s r.after (add_callbacks callbacks acc) j h,
      ==_iff j ch,
    )

pub apply_updates_constants :
    (d : Dict ℕ ℕ) (s : Bool) (u : Universe) (acc : List ℕ)
    → (apply_updates d s u acc).1.constant_values ≡ u.constant_values
unfolding apply_updates update_value
apply_updates_constants [] s u acc = refl
apply_updates_constants ((ch, v) ∷ d) s u acc =
    let (callbacks, r) = update_value (ch ∷ []) v false s false u in
    apply_updates_constants d s r.after (add_callbacks callbacks acc)
    ∙ write_channels_constants (ch ∷ []) v s u

pub restore_constants_values :
    (cs values : Dict ℕ ℕ) (j : ℕ)
    → Unique cs
    → lookup j (restore_constants cs values) ≡ over (lookup j cs) (lookup j values)
unfolding restore_constants
restore_constants_values [] values j h = refl
restore_constants_values ((ch, v) ∷ cs) values j (new, h) = ground (
  arith,
  restore_constants_values cs values j h,
  restore_constants_values cs (insert ch v values) j h,
  lookup-insert ch j v values,
  ==_iff j ch,
)
