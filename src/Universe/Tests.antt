-- ===== src/Universe/Tests.antt =====
-- The theorems on `DmxUniverse` at a universe of three channels, the third a constant one.
use ha_artnet_led.Base.{ℕ, ◌≡◌, refl, true, false, [], ◌∷◌, some, arith, if◌then◌else◌, ==_iff}
use ha_artnet_led.Base.Bytes.{Bytes}
use ha_artnet_led.Base.Dict.{Dict, nat_eq, lookup, contains}
use ha_artnet_led.Universe.State.{Universe, write_channels}
use ha_artnet_led.Universe.Send.{
  send_universe_data, do_send, schedule_send, update_value, update_multiple_values, apply_updates,
  restore_constants, write_frame, frame_length, sacn_frame,
}
use ha_artnet_led.Universe.Values.{over}
use ha_artnet_led.Universe.Frame.{IsHeld, update_multiple_values_unsourced}
use ha_artnet_led.Universe.Output.{IsSend, send_universe_data-IsSend}
use ha_artnet_led.Universe.Clock.{Clocked, update, write, after_operation, after_timer, fresh}

abbrev stage : Universe
stage = record {
  port_address = record { net = 0; sub_net = 0; universe = 1 };
  has_controller = true;
  sacn_universe = some 1;
  use_partial_universe = true;
  has_hass = true;
  channel_values = (1, 10) ∷ (2, 20) ∷ (3, 30) ∷ [];
  constant_values = (3, 30) ∷ [];
  channel_callbacks = (1, 70 ∷ []) ∷ (2, 70 ∷ 71 ∷ []) ∷ [];
  output_enabled = true;
  send_timer = false;
  last_send_time = 100;
  frame_interval = 33;
}

stage-IsHeld : IsHeld stage
stage-IsHeld = ((refl, tt), λ ch v e. ground (arith, ==_iff ch 3, ==_iff ch 2, ==_iff ch 1))

abbrev updates : Dict ℕ ℕ
updates = (1, 50) ∷ (2, 60) ∷ (3, 70) ∷ []

update_multiple_values_unsourced_example :
    lookup 2 (update_multiple_values updates false true 200 stage).after.channel_values ≡ (
      if contains 2 stage.constant_values
      then lookup 2 stage.channel_values
      else over (lookup 2 updates) (lookup 2 stage.channel_values))
update_multiple_values_unsourced_example =
    update_multiple_values_unsourced updates true 200 stage 2 stage-IsHeld
      (refl, (refl, (refl, tt)))

send_universe_data-IsSend_example : (bytes : Bytes) × IsSend stage bytes (send_universe_data stage)
send_universe_data-IsSend_example =
    send_universe_data-IsSend stage refl (omega arith, tt)
      (omega arith, (omega arith, (omega arith, tt))) (refl, (refl, (refl, tt)))

-- Two updates, each with the frame of its timer, and a frame between them that is sent at once.
abbrev waiting : Clocked
waiting = after_operation 110 (update updates false true) (fresh 105 stage)

abbrev direct : Clocked
direct = after_operation 120 (write (1 ∷ []) 9 true false true) waiting

abbrev waiting_again : Clocked
waiting_again = after_operation 150 (update ((1, 51) ∷ []) false true) (after_timer 133 direct)

two_frames : (after_timer 170 waiting_again).sent ≡ 170 ∷ 133 ∷ []
unfolding schedule_send do_send send_universe_data update_multiple_values apply_updates update_value
    write_channels restore_constants write_frame frame_length sacn_frame
two_frames = refl
