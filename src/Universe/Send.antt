-- ===== src/Universe/Send.antt =====
-- Building and sending the frames of `DmxUniverse`, and the methods that lead there, of
-- custom_components/dmx/io/dmx_io.py.
use ha_artnet_led.Base.{
  ℕ, zero, suc, ◌+◌, ◌-◌, ◌%◌, Bool, true, false, ◌&&◌, List, [], ◌∷◌, ◌++◌, Option, some, none,
  length, set, replicate, ltb, leb, ◌==◌, if◌then◌else◌, max,
}
use ha_artnet_led.Base.Result.{Result, ok, err, Exc, ◌>>=◌}
use ha_artnet_led.Base.Bytes.{Bytes}
use ha_artnet_led.Base.Dict.{Dict, nat_eq, lookup, contains, insert}
use ha_artnet_led.ArtNet.Address.{PortAddress}
use ha_artnet_led.Universe.State.{
  Universe, Event, controller_send, sacn_send, sacn_add, sacn_terminate, cancel_timer, call_later,
  write_channels, add_callbacks, collect_callbacks, fire,
}

-- What a method leaves: the universe, the calls made in order, and an exception if it raised one.
pub record Done : Type 0 where
  pub after : Universe
  pub events : List Event
  pub raised : Option Exc

-- The constants are put back before a frame is built.
unfoldable pub restore_constants : Dict ℕ ℕ → Dict ℕ ℕ → Dict ℕ ℕ
restore_constants [] values = values
restore_constants ((ch, v) ∷ cs) values =
    let same : Bool = elim (lookup ch values) [ none ↦ false | some w ↦ w == v ] in
    restore_constants cs (if same then values else insert ch v values)

abbrev pub max_key : Dict ℕ ℕ → ℕ
max_key [] = 0
max_key ((ch, v) ∷ d) = max ch (max_key d)

-- `data[channel - 1] = value` for the channels in range; a bytearray refuses what is no byte.
abbrev pub write_byte : ℕ → ℕ → Bytes → Result Bytes
write_byte ch v bytes =
    if leb 1 ch && leb ch (length bytes)
    then (if ltb v 256 then ok (set bytes (ch - 1) v) else err Exc.value_error)
    else ok bytes

unfoldable pub write_frame : Dict ℕ ℕ → Bytes → Result Bytes
write_frame [] bytes = ok bytes
write_frame ((ch, v) ∷ d) bytes = write_byte ch v bytes >>= write_frame d

-- The length of a frame: the highest channel made even, at least 2; or all 512 channels.
unfoldable pub frame_length : Bool → Dict ℕ ℕ → ℕ
frame_length partial values = if partial then (let m = max_key values in max 2 (m + m % 2)) else 512

-- The start code, the channels, and zeros up to 25 bytes.
unfoldable pub sacn_frame : Bytes → Bytes
sacn_frame bytes = 0 ∷ (bytes ++ replicate (25 - suc (length bytes)) 0)

-- `if self.sacn_server and self.sacn_universe`
abbrev pub sacn_of : Option ℕ → List ℕ
sacn_of none = []
sacn_of (some zero) = []
sacn_of (some (suc n)) = suc n ∷ []

abbrev pub each : List ℕ → (ℕ → Event) → List Event
each [] f = []
each (x ∷ xs) f = f x ∷ each xs f

abbrev pub send_events : Universe → Bytes → Bytes → List Event
send_events u bytes sacn_bytes =
    let artnet = if u.has_controller then controller_send u.port_address bytes ∷ [] else [] in
    artnet ++ each (sacn_of u.sacn_universe) (λ n. sacn_send n sacn_bytes)

-- `send_universe_data`
abbrev pub send_values : Universe → Done
send_values u = elim u.channel_values [
  | [] ↦ record {
    after = u;
    events = send_events u (replicate 2 0) (0 ∷ replicate 24 0);
    raised = none;
  }
  | entry ∷ rest ↦
      elim (write_frame (entry ∷ rest)
        (replicate (frame_length u.use_partial_universe (entry ∷ rest)) 0)) [
          | ok bytes ↦ record {
            after = u;
            events = send_events u bytes (sacn_frame bytes);
            raised = none;
          }
          | err e ↦ record { after = u; events = []; raised = some e }
        ]
]

unfoldable pub send_universe_data : Universe → Done
send_universe_data u =
    if u.output_enabled
    then send_values
        (record u { channel_values = restore_constants u.constant_values u.channel_values })
    else record { after = u; events = []; raised = none }

-- Later calls of the same method; an exception skips them.
abbrev pub then_run : Done → (Universe → Done) → Done
then_run d f = elim d.raised [
  | some e ↦ d
  | none ↦
      let r = f d.after in
      record { after = r.after; events = d.events ++ r.events; raised = r.raised }
]

abbrev pub done : Universe → List Event → Done
done u events = record { after = u; events = events; raised = none }

-- `update_value`: the callbacks that it returns, and what it does.
unfoldable pub update_value : List ℕ → ℕ → Bool → Bool → Bool → Universe → List ℕ × Done
unfolding write_channels
update_value channels value send_immediately sourced fire_callbacks u =
    let (changed, u') = write_channels channels value sourced u in
    let callbacks = collect_callbacks changed u' [] in
    let fired = done u' (if fire_callbacks then fire callbacks else []) in
    (callbacks, if send_immediately then then_run fired send_universe_data else fired)

-- `_do_send` and `_schedule_send` at the time `now`.
unfoldable pub do_send : ℕ → Universe → Done
do_send now u = send_universe_data (record u { send_timer = false; last_send_time = now })

unfoldable pub schedule_send : ℕ → Universe → Done
schedule_send now u =
    let elapsed = now - u.last_send_time in
    if leb u.frame_interval elapsed
    then then_run
        (done (record u { send_timer = false }) (if u.send_timer then cancel_timer ∷ [] else []))
        (do_send now)
    else (if u.send_timer
        then done u []
        else (if u.has_hass
            then done (record u { send_timer = true })
                (call_later (u.frame_interval - elapsed) ∷ [])
            else do_send now u))

-- The loop of `update_multiple_values` over the dict of updates, then its callbacks, then the send.
unfoldable pub apply_updates : Dict ℕ ℕ → Bool → Universe → List ℕ → List ℕ × Universe
unfolding update_value
apply_updates [] sourced u acc = (acc, u)
apply_updates ((ch, v) ∷ d) sourced u acc =
    let (callbacks, r) = update_value (ch ∷ []) v false sourced false u in
    apply_updates d sourced r.after (add_callbacks callbacks acc)

unfoldable pub update_multiple_values : Dict ℕ ℕ → Bool → Bool → ℕ → Universe → Done
unfolding apply_updates
update_multiple_values updates sourced send_update now u =
    let (callbacks, u') = apply_updates updates sourced u [] in
    let fired = done u' (fire callbacks) in
    if send_update then then_run fired (schedule_send now) else fired

-- `set_output_enabled`
unfoldable pub set_output_enabled : Bool → Universe → Done
set_output_enabled enabled u =
    let u' = record u { output_enabled = enabled } in
    elim (sacn_of u.sacn_universe) [
      | [] ↦ done u' []
      | n ∷ _ ↦
          if enabled
          then then_run (done u' (sacn_add n ∷ [])) send_universe_data
          else done u' (sacn_terminate n ∷ [])
    ]

-- `DmxUniverse.__init__`, with the event that it adds the universe to the sACN server.
unfoldable pub new_universe : PortAddress → Bool → Bool → Option ℕ → Bool → ℕ → Done
new_universe address has_controller partial sacn has_hass frame_interval =
    done
      (record {
        port_address = address;
        has_controller = has_controller;
        sacn_universe = sacn;
        use_partial_universe = partial;
        has_hass = has_hass;
        channel_values = [];
        constant_values = [];
        channel_callbacks = [];
        output_enabled = true;
        send_timer = false;
        last_send_time = 0;
        frame_interval = frame_interval;
      })
      (each (sacn_of sacn) sacn_add)

-- `get_channel_value` and `is_channel_set`
unfoldable pub get_channel_value : ℕ → Universe → ℕ
get_channel_value ch u = elim (lookup ch u.channel_values) [ none ↦ 0 | some v ↦ v ]

unfoldable pub is_channel_set : ℕ → Universe → Bool
is_channel_set ch u = contains ch u.channel_values
