-- ===== src/ArtNet/Server/Dispatch.antt =====
-- `peek_opcode` of custom_components/dmx/server/__init__.py, and `handle_datagram` of
-- custom_components/dmx/server/artnet_server.py, which it selects the handler for.
use ha_artnet_led.Base.{
  ℕ, ◌*◌, ◌^◌, true, false, List, [], ◌∷◌, ◌++◌, Option, some, none, ltb, ◌==◌, take, length,
  replicate, if◌then◌else◌,
}
use ha_artnet_led.Base.Result.{Result, ok, err, Exc, ◌>>=◌ as ◌>>=ʳ◌}
use ha_artnet_led.Base.Action.{◌>>=◌, nothing, value_of}
use ha_artnet_led.Base.Bytes.{Bytes}
use ha_artnet_led.Base.Dict.{nat_eq}
use ha_artnet_led.Base.Sets.{member}
use ha_artnet_led.Base.Text.{Text}
use ha_artnet_led.Base.Text.Format.{codes}
use ha_artnet_led.ArtNet.Codec.{
  Outcome, returned, raised, Step, next, stop, consume_int_lsb, text_eq, art_net,
}
use ha_artnet_led.ArtNet.Dmx.{make_dmx, deserialize_dmx, op_output_dmx}
use ha_artnet_led.ArtNet.Poll.{make_poll, deserialize_poll, op_poll, dp_low}
use ha_artnet_led.ArtNet.Messages.{
  make_diag_data, deserialize_diag_data, make_command, deserialize_command, make_trigger,
  deserialize_trigger, make_time_code, deserialize_time_code, film, op_diag_data, op_time_code,
  op_command, op_trigger,
}
use ha_artnet_led.ArtNet.IpProg.{make_ip_prog_reply, deserialize_ip_prog_reply, op_ip_prog_reply}
use ha_artnet_led.ArtNet.PollReply.{
  ArtPollReply, indicator_unknown, authority_unknown, hold_last_state, st_controller,
}
use ha_artnet_led.ArtNet.PollReply.Read.{deserialize_poll_reply}
use ha_artnet_led.ArtNet.Server.Replies.{Method, new_port}
use ha_artnet_led.ArtNet.Server.Nodes.{handle_poll_reply}
use ha_artnet_led.ArtNet.Server.Receiving.{handle_poll, handle_dmx, handle_command, handle_trigger}

-- The values of `OpCode`.
abbrev pub op_codes : List ℕ
op_codes =
    0x2000 ∷ 0x2100 ∷ 0x2300 ∷ 0x2400 ∷ 0x5000 ∷ 0x5100 ∷ 0x5200 ∷ 0x6000 ∷ 0x7000 ∷ 0x8000 ∷ 0x8100
    ∷ 0x8200 ∷ 0x8300 ∷ 0x8400 ∷ 0xA010 ∷ 0xA020 ∷ 0xA040 ∷ 0xF000 ∷ 0xF100 ∷ 0xF200 ∷ 0xF300
    ∷ 0xF400 ∷ 0xF500 ∷ 0xF600 ∷ 0xF800 ∷ 0xF900 ∷ 0x9000 ∷ 0x9100 ∷ 0x9200 ∷ 0x9300 ∷ 0x9700
    ∷ 0x9800 ∷ 0x9900 ∷ 0x9A00 ∷ 0x9B00 ∷ []

abbrev pub op_poll_reply : ℕ
op_poll_reply = 0x2100

-- The value of a step that consumes, and `OpCode(value)`.
abbrev pub consumed : {S A : Type 0} → Step S A → Result A
consumed (next a s i) = ok a
consumed (stop e s i) = err e

abbrev pub op_code : ℕ → Result ℕ
op_code value = if member value op_codes then ok value else err Exc.value_error

-- `peek_opcode`
unfoldable pub peek_opcode : Bytes → Result (Option ℕ)
unfolding consume_int_lsb
peek_opcode packet =
    if ltb (length packet) 9
    then ok none
    else (if text_eq (take 8 packet) (art_net ++ (0 ∷ []))
        then (consumed (consume_int_lsb {S = Unit {0}} packet tt 8) >>=ʳ λ value.
            op_code value >>=ʳ λ code. ok (some code))
        else ok none)

-- An object after `deserialize`.
abbrev pub received : {S : Type 0} → Outcome S → Result S
received (returned s i) = ok s
received (raised e s) = err e

-- `ArtPollReply()`
abbrev pub new_reply : ArtPollReply
new_reply = record {
  source_ip = replicate 4 0;
  port = 0x1936;
  firmware_version = 0;
  net_switch = 0;
  sub_switch = 0;
  oem = 0;
  indicator_state = indicator_unknown;
  authority = authority_unknown;
  boot_process = true;
  supports_rdm = false;
  esta = 72 * 2 ^ 73;
  short_name = codes "HA ArtNet";
  long_name = codes "HomeAssistant DMX integration";
  node_report = [];
  ports = replicate 4 new_port;
  acn_priority = 100;
  sw_macro_bitmap = 0;
  sw_remote_bitmap = 0;
  style = st_controller;
  mac_address = replicate 6 0;
  bind_ip = replicate 4 0;
  bind_index = 1;
  supports_web_browser_configuration = false;
  dhcp_configured = false;
  dhcp_capable = false;
  supports_15_bit_port_address = true;
  supports_switching_to_sacn = false;
  squawking = false;
  supports_switching_of_output_style = false;
  supports_rdm_through_artnet = false;
  failsafe_state = hold_last_state;
  supports_failover = false;
  supports_switching_port_direction = false;
  ubea_present = false;
  ubea_value = 0;
  supports_llrp = true;
  default_resp_uid = replicate 6 0;
}

-- A packet that is only logged.
abbrev pub log_packet : {S : Type 0} → Result S → Method (Unit {0})
log_packet packet = value_of packet >>= λ p. nothing

-- The handler of an opcode.
unfoldable pub dispatch : (Bytes → Text) → ℕ → Bytes → Bytes → ℕ → Method (Unit {0})
dispatch decode_replacing now addr packet code =
    if code == op_poll
    then value_of (received (deserialize_poll packet (make_poll 14 false false)))
      >>= handle_poll addr
    else (if code == op_poll_reply
        then value_of (received (deserialize_poll_reply packet new_reply))
          >>= handle_poll_reply now addr
        else (if code == op_ip_prog_reply
            then log_packet (
                make_ip_prog_reply 14 (replicate 4 0) (replicate 4 0) (replicate 4 0) false
                >>=ʳ λ p. received (deserialize_ip_prog_reply packet p))
            else (if code == op_diag_data
                then log_packet (
                    make_diag_data 14 dp_low 0 [] >>=ʳ λ p.
                    received (deserialize_diag_data packet p))
                else (if code == op_time_code
                    then log_packet (
                        make_time_code 14 0 0 0 0 film >>=ʳ λ p.
                        received (deserialize_time_code packet p))
                    else (if code == op_command
                        then value_of (
                            make_command 14 0xFFFF [] >>=ʳ λ p.
                            received (deserialize_command packet p))
                          >>= handle_command
                        else (if code == op_trigger
                            then value_of (
                                make_trigger 14 0xFFFF 0 0 (replicate 512 0) >>=ʳ λ p.
                                received (deserialize_trigger packet p))
                              >>= handle_trigger decode_replacing
                            else (if code == op_output_dmx
                                then (value_of (
                                      make_dmx 14 0 0
                                        (record { net = 0; sub_net = 0; universe = 0 })
                                        (replicate 2 0)
                                      >>=ʳ λ p. received (deserialize_dmx packet p))
                                    >>= λ dmx. handle_dmx now dmx addr)
                                else nothing)))))))

abbrev pub dispatch_to : (Bytes → Text) → ℕ → Bytes → Bytes → Option ℕ → Method (Unit {0})
dispatch_to decode_replacing now addr packet none = nothing
dispatch_to decode_replacing now addr packet (some code) =
    dispatch decode_replacing now addr packet code

-- `datagram_received`, `handle_datagram`: a programming request, an address request, a
-- synchronisation and any other opcode do nothing.
unfoldable pub handle_datagram : (Bytes → Text) → ℕ → Bytes → Bytes → Method (Unit {0})
unfolding peek_opcode dispatch
handle_datagram decode_replacing now addr packet =
    value_of (peek_opcode packet) >>= dispatch_to decode_replacing now addr packet
