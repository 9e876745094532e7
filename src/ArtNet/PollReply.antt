-- ===== src/ArtNet/PollReply.antt =====
-- `ArtPollReply` of custom_components/dmx/server/__init__.py: the object, its status bytes, and
-- `serialize`.
pub mod Read
pub mod Status
use ha_artnet_led.Base.{
  ℕ, zero, suc, ◌+◌, ◌-◌, ◌*◌, ◌/◌, ◌%◌, Bool, true, false, not, ◌&&◌, ◌||◌, List, [], ◌∷◌, ◌++◌,
  Option, some, none, map, bit, ◌==◌, ltb, leb, length, replicate, take, drop, bit_and,
  if◌then◌else◌,
}
use ha_artnet_led.Base.Result.{Result, ok, err, Exc, check, ◌>>=◌, ◌>>◌}
use ha_artnet_led.Base.Bytes.{Bytes, slice}
use ha_artnet_led.Base.Text.{Text}
use ha_artnet_led.ArtNet.Flags.{
  flag, Port, input_flags, output_flags, port_types_flags, good_output_b, dmx512,
}
use ha_artnet_led.ArtNet.Codec.{
  append, extend, append_int_lsb, append_int_msb, append_str, serialize_base, from_digits,
}

pub data IndicatorState : Type 0 where
  indicator_unknown locate_identify mute_mode normal_mode : IndicatorState

abbrev pub indicator_value : IndicatorState → ℕ
indicator_value indicator_unknown = 0
indicator_value locate_identify = 1
indicator_value mute_mode = 2
indicator_value normal_mode = 3

pub data Authority : Type 0 where
  authority_unknown front_panel programmatic : Authority

abbrev pub authority_value : Authority → ℕ
authority_value authority_unknown = 0
authority_value front_panel = 1
authority_value programmatic = 2

-- UNKNOWN has the value -1, which leaves no status byte.
pub data FailsafeState : Type 0 where
  failsafe_unknown hold_last_state all_outputs_0 all_outputs_full playback_fail_safe_scene :
      FailsafeState

abbrev pub failsafe_value : FailsafeState → Result ℕ
failsafe_value failsafe_unknown = err Exc.value_error
failsafe_value hold_last_state = ok 0
failsafe_value all_outputs_0 = ok 1
failsafe_value all_outputs_full = ok 2
failsafe_value playback_fail_safe_scene = ok 3

-- The styles, by their codes 0 to 6.
pub data StyleCode : Type 0 where
  st_node st_controller st_media st_route st_backup st_config st_visual : StyleCode

abbrev pub style_value : StyleCode → ℕ
style_value st_node = 0
style_value st_controller = 1
style_value st_media = 2
style_value st_route = 3
style_value st_backup = 4
style_value st_config = 5
style_value st_visual = 6

pub record ArtPollReply : Type 0 where
  pub source_ip : Bytes
  pub port : ℕ
  pub firmware_version : ℕ
  pub net_switch : ℕ
  pub sub_switch : ℕ
  pub oem : ℕ
  pub indicator_state : IndicatorState
  pub authority : Authority
  pub boot_process : Bool
  pub supports_rdm : Bool
  pub esta : ℕ
  pub short_name : Text
  pub long_name : Text
  pub node_report : Text
  pub ports : List Port
  pub acn_priority : ℕ
  pub sw_macro_bitmap : ℕ
  pub sw_remote_bitmap : ℕ
  pub style : StyleCode
  pub mac_address : Bytes
  pub bind_ip : Bytes
  pub bind_index : ℕ
  pub supports_web_browser_configuration : Bool
  pub dhcp_configured : Bool
  pub dhcp_capable : Bool
  pub supports_15_bit_port_address : Bool
  pub supports_switching_to_sacn : Bool
  pub squawking : Bool
  pub supports_switching_of_output_style : Bool
  pub supports_rdm_through_artnet : Bool
  pub failsafe_state : FailsafeState
  pub supports_failover : Bool
  pub supports_switching_port_direction : Bool
  pub ubea_present : Bool
  pub ubea_value : ℕ
  pub supports_llrp : Bool
  pub default_resp_uid : Bytes

-- The three status bytes, with the comparisons that stand where shifts are meant: a flag is always
-- less than 3, and less than 1 if it is not set.
unfoldable pub status_1 : ArtPollReply → ℕ
status_1 r =
    indicator_value r.indicator_state * 64
    + authority_value r.authority * 16
    + bit r.boot_process * 4
    + bit (ltb (bit r.supports_rdm) 1)
    + bit r.ubea_present

unfoldable pub status_2 : ArtPollReply → ℕ
status_2 r =
    bit r.supports_web_browser_configuration
    + bit r.dhcp_configured * 2
    + bit r.dhcp_capable * 4
    + bit r.supports_15_bit_port_address * 8
    + bit r.supports_switching_to_sacn * 16
    + bit r.squawking * 32
    + bit r.supports_switching_of_output_style * 64
    + bit r.supports_rdm_through_artnet * 128

unfoldable pub status_3 : ArtPollReply → Result ℕ
status_3 r = failsafe_value r.failsafe_state >>= λ failsafe. ok (
    failsafe * 64
    + bit r.supports_failover * 32
    + bit r.supports_llrp * 16
    + bit (ltb (bit r.supports_switching_port_direction) 3))

-- `hex(n)[2:]` as a list of digits, in at most `fuel` more digits than it holds.
unfoldable pub hex_text : ℕ → ℕ → List ℕ → List ℕ
hex_text zero n acc = acc
hex_text (suc fuel) n acc =
    let more = hex_text fuel (n / 16) (n % 16 ∷ acc) in if ltb n 16 then n ∷ acc else more

-- `int(text, 16)` of such digits.
abbrev pub hex_number : List ℕ → Result ℕ
hex_number [] = err Exc.value_error
hex_number (d ∷ ds) = ok (from_digits (d ∷ ds) 0)

-- `[int(port_str[2:4], 16), int(port_str[0:2], 16)]`; a number below 16 ^ n has n digits at most.
unfoldable pub port_bytes : ℕ → Result (List ℕ)
unfolding hex_text
port_bytes port =
    let text = hex_text (suc port) port [] in
    hex_number (slice 2 2 text) >>= λ low. hex_number (take 2 text) >>= λ high. ok (low ∷ high ∷ [])

-- The ports that do something.
abbrev pub active_ports : List Port → ℕ
active_ports [] = 0
active_ports (p ∷ ps) = bit (p.input || p.output) + active_ports ps

-- `ArtPollReply.serialize`
unfoldable pub serialize_poll_reply : ArtPollReply → Result Bytes
serialize_poll_reply r = do
  port ← port_bytes r.port
  port_field ← extend port
  net ← append r.net_switch
  sub ← append r.sub_switch
  ubea ← append (if r.ubea_present then r.ubea_value else 0x00)
  status1 ← append (status_1 r)
  short_name ← append_str r.short_name 18
  long_name ← append_str r.long_name 64
  node_report ← append_str r.node_report 64
  types ← extend (map port_types_flags r.ports)
  inputs ← extend (map (λ p. input_flags p.good_input) r.ports)
  outputs ← extend (map (λ p. output_flags p.good_output_a) r.ports)
  sw_ins ← extend (map (λ p. p.sw_in) r.ports)
  sw_outs ← extend (map (λ p. p.sw_out) r.ports)
  priority ← append r.acn_priority
  macro ← append r.sw_macro_bitmap
  remote ← append r.sw_remote_bitmap
  style ← append (style_value r.style)
  bind_index ← append r.bind_index
  status2 ← append (status_2 r)
  outputs_b ← extend (map good_output_b r.ports)
  status_number ← status_3 r
  status3 ← append status_number
  ok (
      serialize_base 0x2100
      ++ (r.source_ip
          ++ (port_field
              ++ (append_int_msb r.firmware_version
                  ++ (net
                      ++ (sub
                          ++ (append_int_msb r.oem
                              ++ (ubea
                                  ++ (status1
                                      ++ (append_int_lsb r.esta
                                          ++ (short_name
                                              ++ (long_name
                                                  ++ (node_report
                                                      ++ (append_int_msb (active_ports r.ports)
                                                          ++ (types
                                                            ++ (inputs
                                                            ++ (outputs
                                                            ++ (sw_ins
                                                            ++ (sw_outs
                                                            ++ (priority
                                                            ++ (macro
                                                            ++ (remote
                                                            ++ (replicate 3 0
                                                            ++ (style
                                                            ++ (r.mac_address
                                                            ++ (r.bind_ip
                                                            ++ (bind_index
                                                            ++ (status2
                                                            ++ (outputs_b
                                                            ++ (status3
                                                            ++ ((if r.supports_llrp
                                                            then r.default_resp_uid
                                                            else replicate 6 0x0)
                                                            ++ replicate 15
                                                            0x0)))))))))))))))))))))))))))))))
