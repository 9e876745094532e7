-- ===== src/ArtNet/Tests/Packets.antt =====
-- The theorems on flags and on the packets other than `ArtDmx` at concrete packets.
use ha_artnet_led.Base.{ℕ, ◌<◌, ◌≡◌, refl, true, false, [], ◌∷◌, replicate, arith}
use ha_artnet_led.Base.Result.{ok}
use ha_artnet_led.Base.Bytes.{Bytes}
use ha_artnet_led.ArtNet.Codec.{returned, next}
use ha_artnet_led.ArtNet.Flags.{
  GoodInput, input_flags, set_input_flags, GoodOutputA, output_flags, set_output_flags, dmx512,
  Port, port_types_flags, set_port_types_flags, good_output_b, set_good_output_b, ArtIpProgCommand,
  command_flags, set_command_flags,
}
use ha_artnet_led.ArtNet.Flags.RoundTrip.{flags_read_back}
use ha_artnet_led.ArtNet.Poll.{dp_med, ArtPoll, serialize_poll, deserialize_poll}
use ha_artnet_led.ArtNet.Poll.RoundTrip.{IsPoll, deserialize-serialize_poll}
use ha_artnet_led.ArtNet.IpProg.{ArtIpProg, serialize_ip_prog, deserialize_ip_prog, ArtIpProgReply}
use ha_artnet_led.ArtNet.IpProg.RoundTrip.{deserialize-serialize_ip_prog}
use ha_artnet_led.ArtNet.Messages.{
  ArtDiagData, ebu, ArtTimeCode, ArtCommand, serialize_command, deserialize_command, ArtTrigger,
}
use ha_artnet_led.ArtNet.Messages.Texts.{deserialize-serialize_command}
use ha_artnet_led.ArtNet.PollReply.{
  ArtPollReply, normal_mode, mute_mode, front_panel, authority_unknown, hold_last_state,
  all_outputs_full, st_node, status_1, status_2, status_3,
}
use ha_artnet_led.ArtNet.PollReply.Read.{read_status_1, set_status_2, read_status_3}
use ha_artnet_led.ArtNet.PollReply.Status.{status_bytes_arrive}
use ha_artnet_led.ArtNet.Program.{
  apply_port_index, decode_with_port_index, write, apply_value_action, action_of,
}
use ha_artnet_led.ArtNet.Program.Commands.{decode-apply_port_index, action_of-apply_value_action}

abbrev some_input : GoodInput
some_input = record {
  data_received = true;
  includes_dmx512_test_packets = false;
  includes_dmx512_sips = true;
  includes_dmx512_text_packets = false;
  input_disabled = false;
  receive_errors_detected = true;
}

abbrev some_output : GoodOutputA
some_output = record {
  data_being_transmitted = true;
  includes_dmx512_test_packets = false;
  includes_dmx512_sips = false;
  includes_dmx512_text_packets = true;
  merging_enabled = true;
  short_detected = false;
  merge_is_ltp = true;
  use_sacn = true;
}

abbrev some_port : Port
some_port = record {
  input = true;
  output = false;
  type = dmx512;
  good_input = some_input;
  good_output_a = some_output;
  sw_in = 1;
  sw_out = 2;
  rdm_enabled = true;
  output_continuous = false;
}

abbrev other_port : Port
other_port = record some_port {
  sw_in = 5;
  sw_out = 6;
  rdm_enabled = false;
  output_continuous = true;
}

abbrev some_command : ArtIpProgCommand
some_command = record {
  enable_programming = true;
  enable_dhcp = true;
  program_default_gateway = false;
  set_parameters_to_default = false;
  program_ip_address = true;
  program_subnet_mask = false;
  program_port = true;
}

flags_read_back_example :
    ((set_input_flags (input_flags some_input) ≡ some_input) × (input_flags some_input < 256))
    × ((set_output_flags (output_flags some_output) ≡ some_output)
        × (output_flags some_output < 256))
    × ((set_port_types_flags (port_types_flags some_port)
          ≡ record { output = false; input = true; type = ok dmx512 })
        × (port_types_flags some_port < 256))
    × ((set_good_output_b (good_output_b some_port) other_port
          ≡ record other_port { rdm_enabled = true; output_continuous = false })
        × (good_output_b some_port < 256))
    × ((set_command_flags (command_flags some_command) ≡ some_command)
        × (command_flags some_command < 256))
flags_read_back_example = flags_read_back some_input some_output some_port other_port some_command

abbrev targeted : ArtPoll
targeted = record {
  protocol_version = 14;
  enable_vlc_transmission = false;
  notify_on_change = true;
  enable_diagnostics = true;
  diag_priority = dp_med;
  diag_broadcast = false;
  enable_targeted_mode = true;
  target_port_bottom = record { net = 1; sub_net = 2; universe = 3 };
  target_port_top = record { net = 7; sub_net = 15; universe = 511 };
}

targeted-IsPoll : IsPoll targeted
targeted-IsPoll = record {
  version_low = omega arith;
  bottom_valid = record {
    net_low = omega arith;
    sub_net_low = omega arith;
    universe_low = omega arith;
  };
  top_valid = record {
    net_low = omega arith;
    sub_net_low = omega arith;
    universe_low = omega arith;
  };
  bottom_low = omega arith;
  top_low = omega arith;
}

abbrev untargeted : ArtPoll
untargeted = record targeted { enable_targeted_mode = false }

deserialize-serialize_poll_example :
    (b : Bytes) × (serialize_poll targeted ≡ ok b)
    × (deserialize_poll b untargeted ≡ returned targeted 18)
deserialize-serialize_poll_example = deserialize-serialize_poll targeted untargeted targeted-IsPoll

abbrev prog : ArtIpProg
prog = record {
  protocol_version = 14;
  command = some_command;
  prog_ip = 10 ∷ 0 ∷ 0 ∷ 7 ∷ [];
  prog_subnet = 255 ∷ 0 ∷ 0 ∷ 0 ∷ [];
  prog_gateway = 10 ∷ 0 ∷ 0 ∷ 1 ∷ [];
}

deserialize-serialize_ip_prog_example :
    (b : Bytes) × (serialize_ip_prog prog ≡ ok b)
    × (deserialize_ip_prog b (record prog { prog_ip = [] }) ≡ returned prog 34)
deserialize-serialize_ip_prog_example =
    deserialize-serialize_ip_prog prog (record prog { prog_ip = [] })
      (record { version_14 = refl; ip_length = refl; subnet_length = refl; gateway_length = refl })

abbrev prog_reply : ArtIpProgReply
prog_reply = record {
  protocol_version = 14;
  prog_ip = 10 ∷ 0 ∷ 0 ∷ 7 ∷ [];
  prog_subnet = 255 ∷ 0 ∷ 0 ∷ 0 ∷ [];
  prog_gateway = 10 ∷ 0 ∷ 0 ∷ 1 ∷ [];
  dhcp_enabled = true;
}

abbrev noon : ArtTimeCode
noon = record {
  protocol_version = 14;
  frames = 3;
  seconds = 5;
  minutes = 30;
  hours = 12;
  type = ebu;
}

abbrev go : ArtCommand
go = record { protocol_version = 14; esta = 0xFFFF; command = 71 ∷ 79 ∷ [] }

deserialize-serialize_command_example :
    (b : Bytes) × (serialize_command go ≡ ok b)
    × (deserialize_command b (record go { esta = 0 }) ≡ returned go 526)
deserialize-serialize_command_example =
    deserialize-serialize_command go (record go { esta = 0 })
      (record {
        version_14 = refl;
        esta_low = omega arith;
        command_short = omega arith;
        command_plain = ((omega arith, omega arith), ((omega arith, omega arith), tt));
      })

abbrev report : ArtDiagData
report = record {
  protocol_version = 14;
  diag_priority = dp_med;
  logical_port = 1;
  text = 111 ∷ 107 ∷ [];
}

abbrev macro : ArtTrigger
macro = record {
  protocol_version = 14;
  oem = 0xFFFF;
  key = 1;
  sub_key = 9;
  payload = replicate 512 5;
}

decode-apply_port_index_example :
    (v : ℕ) × (apply_port_index 0x50 2 ≡ ok v) × (decode_with_port_index v ≡ ok (0x50, 0))
decode-apply_port_index_example = decode-apply_port_index 0x50 2 refl (omega arith)

action_of-apply_value_action_example :
    (action_of (apply_value_action write 5) ≡ write) × (apply_value_action write 5 ≡ 133)
action_of-apply_value_action_example =
    action_of-apply_value_action write 5 (omega arith) (omega arith)

abbrev node : ArtPollReply
node = record {
  source_ip = 10 ∷ 0 ∷ 0 ∷ 2 ∷ [];
  port = 0x1936;
  firmware_version = 1;
  net_switch = 0;
  sub_switch = 0;
  oem = 0xFFFF;
  indicator_state = normal_mode;
  authority = front_panel;
  boot_process = true;
  supports_rdm = false;
  esta = 0;
  short_name = 78 ∷ [];
  long_name = 78 ∷ [];
  node_report = [];
  ports = some_port ∷ some_port ∷ some_port ∷ some_port ∷ [];
  acn_priority = 100;
  sw_macro_bitmap = 0;
  sw_remote_bitmap = 0;
  style = st_node;
  mac_address = replicate 6 1;
  bind_ip = replicate 4 0;
  bind_index = 1;
  supports_web_browser_configuration = true;
  dhcp_configured = false;
  dhcp_capable = true;
  supports_15_bit_port_address = true;
  supports_switching_to_sacn = false;
  squawking = false;
  supports_switching_of_output_style = true;
  supports_rdm_through_artnet = false;
  failsafe_state = all_outputs_full;
  supports_failover = true;
  supports_switching_port_direction = true;
  ubea_present = true;
  ubea_value = 3;
  supports_llrp = true;
  default_resp_uid = replicate 6 0;
}

abbrev heard : ArtPollReply
heard = record node {
  supports_web_browser_configuration = false;
  dhcp_capable = false;
  squawking = true;
  failsafe_state = hold_last_state;
}

node_status : status_3 node ≡ ok 177
unfolding status_3
node_status = refl

status_bytes_arrive_example :
    (read_status_1 (status_1 node) heard 24
      ≡ next tt
          (record heard {
            indicator_state = mute_mode;
            authority = authority_unknown;
            boot_process = true;
            supports_rdm = true;
            ubea_present = false;
          })
          24)
    × (set_status_2 (status_2 node) heard ≡ record node { failsafe_state = hold_last_state })
    × (read_status_3 177 heard 24
        ≡ next tt
            (record heard {
              failsafe_state = all_outputs_full;
              supports_failover = true;
              supports_llrp = true;
              supports_switching_port_direction = false;
            })
            24)
status_bytes_arrive_example = status_bytes_arrive node heard 177 24 node_status
