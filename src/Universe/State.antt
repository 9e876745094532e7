-- ===== src/Universe/State.antt =====
-- The state of `DmxUniverse`, its channel values and its listeners, of custom_components/dmx/io/dmx_io.py.
--
-- A callback is a number, and calling it is an event of the model, which returns; so are the calls of the Art-Net
-- controller, of the sACN server and of the event loop's timers. Times are in ticks of a monotonic
-- clock, handed in by the caller.
use ha_artnet_led.Base.{
  ℕ, Bool, true, false, not, ◌&&◌, ◌||◌, List, [], ◌∷◌, ◌++◌, Option, some, none, ◌==◌,
  if◌then◌else◌,
}
use ha_artnet_led.Base.Bytes.{Bytes}
use ha_artnet_led.Base.Dict.{Dict, nat_eq, lookup, contains, insert}
use ha_artnet_led.ArtNet.Address.{PortAddress}

pub record Universe : Type 0 where
  pub port_address : PortAddress
  pub has_controller : Bool
  pub sacn_universe : Option ℕ
  pub use_partial_universe : Bool
  pub has_hass : Bool
  pub channel_values : Dict ℕ ℕ
  pub constant_values : Dict ℕ ℕ
  pub channel_callbacks : Dict ℕ (List ℕ)
  pub output_enabled : Bool
  pub send_timer : Bool
  pub last_send_time : ℕ
  pub frame_interval : ℕ

-- What the universe calls outside itself.
pub data Event : Type 0 where
  call_callback : ℕ → Event
  controller_send : PortAddress → Bytes → Event
  sacn_send : ℕ → Bytes → Event
  sacn_add sacn_terminate : ℕ → Event
  cancel_timer : Event
  call_later : ℕ → Event

-- A set of callbacks, in the order of insertion.
abbrev pub elem : ℕ → List ℕ → Bool
elem a [] = false
elem a (x ∷ xs) = a == x || elem a xs

-- `set_constant_value`
unfoldable pub set_constant_value : List ℕ → ℕ → Universe → Universe
set_constant_value [] value u = u
set_constant_value (ch ∷ chs) value u = set_constant_value chs value (record u {
  constant_values = insert ch value u.constant_values;
  channel_values = insert ch value u.channel_values;
})

-- `register_channel_listener`, on a list of channels.
abbrev pub registered : ℕ → Dict ℕ (List ℕ) → List ℕ
registered ch d = elim (lookup ch d) [ none ↦ [] | some cbs ↦ cbs ]

unfoldable pub register_channel_listener : List ℕ → ℕ → Universe → Universe
register_channel_listener [] callback u = u
register_channel_listener (ch ∷ chs) callback u =
    let cbs = registered ch u.channel_callbacks in
    let cbs' = if elem callback cbs then cbs else cbs ++ (callback ∷ []) in
    register_channel_listener chs callback
      (record u { channel_callbacks = insert ch cbs' u.channel_callbacks })

-- The first loop of `update_value`: writes the values and collects the changed channels. A
-- constant channel is left alone unless the update has a source.
abbrev pub is_locked : ℕ → Bool → Universe → Bool
is_locked ch sourced u = contains ch u.constant_values && not sourced

abbrev pub differs : ℕ → ℕ → Universe → Bool
differs ch value u = elim (lookup ch u.channel_values) [ none ↦ true | some v ↦ not (v == value) ]

unfoldable pub write_channels : List ℕ → ℕ → Bool → Universe → List ℕ × Universe
write_channels [] value sourced u = ([], u)
write_channels (ch ∷ chs) value sourced u =
    let written = not (is_locked ch sourced u) && differs ch value u in
    let u' =
      if written then record u { channel_values = insert ch value u.channel_values } else u in
    let (changed, u'') = write_channels chs value sourced u' in
    (if written then ch ∷ changed else changed, u'')

-- The second loop: the callbacks of the changed channels, each once.
abbrev pub add_callbacks : List ℕ → List ℕ → List ℕ
add_callbacks [] acc = acc
add_callbacks (cb ∷ cbs) acc = add_callbacks cbs (if elem cb acc then acc else acc ++ (cb ∷ []))

abbrev pub collect_callbacks : List ℕ → Universe → List ℕ → List ℕ
collect_callbacks [] u acc = acc
collect_callbacks (ch ∷ chs) u acc =
    collect_callbacks chs u (add_callbacks (registered ch u.channel_callbacks) acc)

abbrev pub fire : List ℕ → List Event
fire [] = []
fire (cb ∷ cbs) = call_callback cb ∷ fire cbs
