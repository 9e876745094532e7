-- ===== src/Universe/Frame.antt =====
-- What a send of `DmxUniverse` leaves in its state, of custom_components/dmx/io/dmx_io.py.
use ha_artnet_led.Base.{
  ℕ, ◌≡◌, inl, inr, refl, Bool, true, false, List, [], ◌∷◌, some, if◌then◌else◌, arith,
  Option-cases,
}
use ha_artnet_led.Base.Dict.{
  Dict, nat_eq, lookup, contains, insert, lookup-insert, Unique, insert-Unique,
}
use ha_artnet_led.Universe.State.{Universe, set_constant_value}
use ha_artnet_led.Universe.Send.{
  send_universe_data, do_send, schedule_send, update_multiple_values, apply_updates,
}
use ha_artnet_led.Universe.Values.{
  over, apply_updates_values, apply_updates_constants, restore_constants_values,
}

-- The constant channels of a universe hold their constants.
abbrev pub IsHeld : Universe → Type 0
IsHeld u =
    Unique u.constant_values
    × ((ch v : ℕ) → lookup ch u.constant_values ≡ some v → lookup ch u.channel_values ≡ some v)

-- What a send leaves of the values: the constants first.
pub send_universe_data_values :
    (u : Universe) (j : ℕ)
    → Unique u.constant_values
    → lookup j (send_universe_data u).after.channel_values ≡ (
        if u.output_enabled
        then over (lookup j u.constant_values) (lookup j u.channel_values)
        else lookup j u.channel_values)
unfolding send_universe_data
send_universe_data_values u j h =
    ground (arith, restore_constants_values u.constant_values u.channel_values j h)

pub send_universe_data_constants :
    (u : Universe) → (send_universe_data u).after.constant_values ≡ u.constant_values
unfolding send_universe_data
send_universe_data_constants u = ground arith

held_over :
    (u : Universe) (j : ℕ)
    → IsHeld u
    → over (lookup j u.constant_values) (lookup j u.channel_values) ≡ lookup j u.channel_values
held_over u j (_, h) = elim (Option-cases (lookup j u.constant_values)) [
  | inl none_held ↦ rw none_held refl
  | inr (v, e) ↦ rw (e) (rw (h j v e) refl)
]

-- On a universe whose constants are held, a send changes no channel.
pub do_send_values :
    (now : ℕ) (u : Universe) (j : ℕ)
    → IsHeld u
    → lookup j (do_send now u).after.channel_values ≡ lookup j u.channel_values
unfolding do_send
do_send_values now u j h =
    let w : Universe = record u { send_timer = false; last_send_time = now } in
    ground (arith, send_universe_data_values w j h.0, held_over u j h)

pub schedule_send_values :
    (now : ℕ) (u : Universe) (j : ℕ)
    → IsHeld u
    → lookup j (schedule_send now u).after.channel_values ≡ lookup j u.channel_values
unfolding schedule_send
schedule_send_values now u j h =
    let w : Universe = record u { send_timer = false } in
    ground (arith, do_send_values now u j h, do_send_values now w j h)

pub schedule_send_constants :
    (now : ℕ) (u : Universe) → (schedule_send now u).after.constant_values ≡ u.constant_values
unfolding schedule_send do_send
schedule_send_constants now u =
    let w : Universe = record u { send_timer = false; last_send_time = now } in
    ground (arith, send_universe_data_constants w)

updates-IsHeld :
    (d : Dict ℕ ℕ) (u : Universe) (acc : List ℕ)
    → IsHeld u
    → Unique d
    → IsHeld (apply_updates d false u acc).1
updates-IsHeld d u acc (keys, h) new =
    let same = apply_updates_constants d false u acc in
    (
      rw same keys,
      λ ch v e. ground (arith, same, apply_updates_values d false u acc ch new, h ch v),
    )

-- An update without a source changes no constant channel, whether it sends, waits or is refused;
-- any other channel has the value of the update, or the one it had, on a universe that holds its
-- constants and for a dict of updates, in which no channel stands twice.
pub update_multiple_values_unsourced :
    (d : Dict ℕ ℕ) (send : Bool) (now : ℕ) (u : Universe) (j : ℕ)
    → IsHeld u
    → Unique d
    → lookup j (update_multiple_values d false send now u).after.channel_values ≡ (
        if contains j u.constant_values
        then lookup j u.channel_values
        else over (lookup j d) (lookup j u.channel_values))
unfolding update_multiple_values
update_multiple_values_unsourced d send now u j h new =
    let w : Universe = (apply_updates d false u []).1 in
    let held : IsHeld w = updates-IsHeld d u [] h new in
    ground (arith, apply_updates_values d false u [] j new, schedule_send_values now w j held)

-- Whatever the universe held before, an enabled send leaves every constant channel at its constant
-- and keeps the constants, for constants in which no channel stands twice.
pub send_universe_data-IsHeld :
    (u : Universe)
    → Unique u.constant_values
    → u.output_enabled ≡ true
    → IsHeld (send_universe_data u).after
send_universe_data-IsHeld u keys on =
    let same = send_universe_data_constants u in
    (rw same keys, λ ch v e. ground (arith, same, send_universe_data_values u ch keys, e))

-- `set_constant_value` and `update_multiple_values` without a source keep the constant channels at
-- their constants.
pub set_constant_value-IsHeld :
    (chs : List ℕ) (value : ℕ) (u : Universe) → IsHeld u → IsHeld (set_constant_value chs value u)
unfolding set_constant_value
set_constant_value-IsHeld [] value u h = h
set_constant_value-IsHeld (ch ∷ chs) value u (keys, h) =
    set_constant_value-IsHeld chs value
      (record u {
        constant_values = insert ch value u.constant_values;
        channel_values = insert ch value u.channel_values;
      })
      (
        insert-Unique ch value u.constant_values keys,
        λ j v e. ground (
          arith,
          lookup-insert ch j value u.constant_values,
          lookup-insert ch j value u.channel_values,
          h j v,
          e,
        ),
      )
