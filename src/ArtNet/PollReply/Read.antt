-- ===== src/ArtNet/PollReply/Read.antt =====
-- `ArtPollReply.deserialize` of custom_components/dmx/server/__init__.py.
use ha_artnet_led.Base.{
  ℕ, zero, suc, ◌+◌, ◌/◌, Bool, true, not, List, some, none, ◌==◌, ltb, leb, length, replicate,
  get_elem?, set, bit_and, if◌then◌else◌,
}
use ha_artnet_led.Base.Result.{Result, ok, err, Exc}
use ha_artnet_led.Base.Bytes.{Bytes}
use ha_artnet_led.ArtNet.Flags.{
  flag, Port, set_input_flags, set_output_flags, set_good_output_b, set_port_types_flags,
}
use ha_artnet_led.ArtNet.Codec.{
  Reader, next, Outcome, outcome, assign, skip, lift, when, choose, ◌>>=◌, ◌>>◌, pop, take_bytes,
  consume_int_msb, consume_hex_number_lsb, consume_hex_number_msb, consume_str, deserialize_base,
}
use ha_artnet_led.ArtNet.PollReply.{
  ArtPollReply, IndicatorState, indicator_unknown, locate_identify, mute_mode, normal_mode,
  Authority, authority_unknown, front_panel, programmatic, FailsafeState, hold_last_state,
  all_outputs_0, all_outputs_full, playback_fail_safe_scene, StyleCode, st_node, st_controller,
  st_media, st_route, st_backup, st_config, st_visual,
}

-- The enumerations by their values.
abbrev pub indicator_of : ℕ → Result IndicatorState
indicator_of v =
    if v == 0
    then ok indicator_unknown
    else (if v == 1
        then ok locate_identify
        else (if v == 2
            then ok mute_mode
            else (if v == 3 then ok normal_mode else err Exc.value_error)))

abbrev pub authority_of : ℕ → Result Authority
authority_of v =
    if v == 0
    then ok authority_unknown
    else (if v == 1
        then ok front_panel
        else (if v == 2 then ok programmatic else err Exc.value_error))

abbrev pub failsafe_of : ℕ → Result FailsafeState
failsafe_of v =
    if v == 0
    then ok hold_last_state
    else (if v == 1
        then ok all_outputs_0
        else (if v == 2
            then ok all_outputs_full
            else (if v == 3 then ok playback_fail_safe_scene else err Exc.value_error)))

-- `StyleCode.from_code`
abbrev pub style_of : ℕ → Result StyleCode
style_of v =
    if v == 0
    then ok st_node
    else (if v == 1
        then ok st_controller
        else (if v == 2
            then ok st_media
            else (if v == 3
                then ok st_route
                else (if v == 4
                    then ok st_backup
                    else (if v == 5
                        then ok st_config
                        else (if v == 6 then ok st_visual else err Exc.value_error))))))

-- The status bytes, as they are taken apart.
unfoldable pub read_status_1 : ℕ → Reader ArtPollReply (Unit {0})
read_status_1 status1 = do
  indicator ← lift (indicator_of (bit_and (status1 / 64) 2))
  assign (λ s. record s { indicator_state = indicator })
  authority ← lift (authority_of (bit_and (status1 / 16) 2))
  assign (λ s. record s { authority = authority })
  assign (λ s. record s {
    boot_process = flag status1 4;
    supports_rdm = flag status1 2;
    ubea_present = not (bit_and status1 1 == 0);
  })

unfoldable pub set_status_2 : ℕ → ArtPollReply → ArtPollReply
set_status_2 status2 s = record s {
  supports_web_browser_configuration = not (bit_and status2 1 == 0);
  dhcp_configured = flag status2 2;
  dhcp_capable = flag status2 4;
  supports_15_bit_port_address = flag status2 8;
  supports_switching_to_sacn = flag status2 16;
  squawking = flag status2 32;
  supports_switching_of_output_style = flag status2 64;
  supports_rdm_through_artnet = flag status2 128;
}

unfoldable pub read_status_3 : ℕ → Reader ArtPollReply (Unit {0})
read_status_3 status3 = do
  failsafe ← lift (failsafe_of (status3 / 64))
  assign (λ s. record s {
    failsafe_state = failsafe;
    supports_failover = flag status3 32;
    supports_llrp = flag status3 16;
    supports_switching_port_direction = flag status3 8;
  })

-- `xs[i]`
abbrev pub item : {A : Type 0} → List A → ℕ → Result A
item xs i = elim (get_elem? xs i) [ some x ↦ ok x | none ↦ err Exc.index_error ]

abbrev pub current : Reader ArtPollReply ArtPollReply
current s i = next s s i

abbrev pub assign_port : ℕ → Port → Reader ArtPollReply (Unit {0})
assign_port k port = assign (λ s. record s { ports = set s.ports k port })

-- The bytes of the ports, in the order of the packet.
pub record PortBytes : Type 0 where
  pub types : Bytes
  pub good_inputs : Bytes
  pub good_outputs_a : Bytes
  pub sw_ins : Bytes
  pub sw_outs : Bytes
  pub good_outputs_b : Bytes

-- The body of the loop over the ports; each assignment to the port's fields stands by itself, since
-- the next one may raise.
unfoldable pub read_port : PortBytes → ℕ → Reader ArtPollReply (Unit {0})
read_port b k = do
  s ← current
  port ← lift (item s.ports k)
  types ← lift (item b.types k)
  let directed : Port = record port {
    output = (set_port_types_flags types).output;
    input = (set_port_types_flags types).input;
  }
  assign_port k directed
  type ← lift ((set_port_types_flags types).type)
  let typed : Port = record directed { type = type }
  assign_port k typed
  good_input ← lift (item b.good_inputs k)
  let with_input : Port = record typed { good_input = set_input_flags good_input }
  assign_port k with_input
  good_output ← lift (item b.good_outputs_a k)
  let with_output : Port = record with_input { good_output_a = set_output_flags good_output }
  assign_port k with_output
  sw_in ← lift (item b.sw_ins k)
  let with_in : Port = record with_output { sw_in = sw_in }
  assign_port k with_in
  sw_out ← lift (item b.sw_outs k)
  let with_out : Port = record with_in { sw_out = sw_out }
  assign_port k with_out
  when (λ s i. ltb k (length b.good_outputs_b))
      (lift (item b.good_outputs_b k) >>= λ flags. assign_port k (set_good_output_b flags with_out))

-- `for i in range(port_count)`, from the port `k` on.
unfoldable pub read_ports : PortBytes → ℕ → ℕ → Reader ArtPollReply (Unit {0})
unfolding read_port
read_ports b zero k = assign (λ s. s)
read_ports b (suc count) k = read_port b k >> read_ports b count (suc k)

-- `if index + n <= len(packet)`, and `if index < len(packet)`.
abbrev pub has : ℕ → Bytes → ArtPollReply → ℕ → Bool
has n packet s i = leb (i + n) (length packet)

-- What may follow after the first 197 bytes; it gives the second flags of the outputs.
unfoldable pub read_extension : Bytes → Reader ArtPollReply Bytes
unfolding set_status_2
read_extension packet = do
  skip 3
  when (has 1 packet)
      (do code ← pop packet; style ← lift (style_of code); assign (λ s. record s { style = style }))
  when (has 6 packet) (do mac ← take_bytes packet 6; assign (λ s. record s { mac_address = mac }))
  when (has 4 packet) (do ip ← take_bytes packet 4; assign (λ s. record s { bind_ip = ip }))
  when (has 1 packet) (do index ← pop packet; assign (λ s. record s { bind_index = index }))
  when (has 1 packet) (do status2 ← pop packet; assign (set_status_2 status2))
  choose (has 4 packet) (take_bytes packet 4) (λ s i. next (replicate 4 0) s i)

-- `ArtPollReply.deserialize`
unfoldable pub read_poll_reply : Bytes → Reader ArtPollReply (Unit {0})
unfolding read_status_1 read_status_3 read_ports read_extension
read_poll_reply packet = do
  deserialize_base packet 0x2100
  source_ip ← take_bytes packet 4
  assign (λ s. record s { source_ip = source_ip })
  port ← consume_hex_number_lsb packet
  assign (λ s. record s { port = port })
  firmware_version ← consume_hex_number_msb packet
  assign (λ s. record s { firmware_version = firmware_version })
  net_switch ← pop packet
  assign (λ s. record s { net_switch = net_switch })
  sub_switch ← pop packet
  assign (λ s. record s { sub_switch = sub_switch })
  oem ← consume_hex_number_msb packet
  assign (λ s. record s { oem = oem })
  ubea ← pop packet
  assign (λ s. record s { ubea_present = true; ubea_value = ubea })
  status1 ← pop packet
  read_status_1 status1
  esta ← consume_hex_number_lsb packet
  assign (λ s. record s { esta = esta })
  short_name ← consume_str packet 18
  assign (λ s. record s { short_name = short_name })
  long_name ← consume_str packet 64
  assign (λ s. record s { long_name = long_name })
  node_report ← consume_str packet 64
  assign (λ s. record s { node_report = node_report })
  port_count ← consume_int_msb packet
  types ← take_bytes packet 4
  good_inputs ← take_bytes packet 4
  good_outputs_a ← take_bytes packet 4
  sw_ins ← take_bytes packet 4
  sw_outs ← take_bytes packet 4
  priority ← pop packet
  assign (λ s. record s { acn_priority = priority })
  macro ← pop packet
  assign (λ s. record s { sw_macro_bitmap = macro })
  remote ← pop packet
  assign (λ s. record s { sw_remote_bitmap = remote })
  good_outputs_b ← choose (has 1 packet) (read_extension packet) (λ s i. next (replicate 4 0) s i)
  read_ports
      (record {
        types = types;
        good_inputs = good_inputs;
        good_outputs_a = good_outputs_a;
        sw_ins = sw_ins;
        sw_outs = sw_outs;
        good_outputs_b = good_outputs_b;
      })
      port_count 0
  when (has 1 packet) (do status3 ← pop packet; read_status_3 status3)
  when (has 6 packet) (do
    uid ← take_bytes packet 6
    assign (λ s. record s { supports_llrp = true; default_resp_uid = uid }))
  skip 15

unfoldable pub deserialize_poll_reply : Bytes → ArtPollReply → Outcome ArtPollReply
unfolding read_poll_reply
deserialize_poll_reply packet self = outcome (read_poll_reply packet self 0)
