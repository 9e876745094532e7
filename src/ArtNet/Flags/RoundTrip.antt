-- ===== src/ArtNet/Flags/RoundTrip.antt =====
-- The flag bytes are read as they were written.
use ha_artnet_led.Base.{
  ℕ, ◌+◌, ◌*◌, ◌/◌, ◌%◌, ◌<◌, ◌≤◌, ◌≡◌, refl, ap, ◌∙◌, Bool, true, false, not, bit, ◌==◌, arith,
  bit_and, bit_and_low,
}
use ha_artnet_led.Base.Result.{ok}
use ha_artnet_led.ArtNet.Flags.{
  dmx512, midi, avab, colortran_cmx, adb_65_2, art_net, dali, flag, GoodInput, input_flags,
  set_input_flags, GoodOutputA, output_flags, set_output_flags, PortType, port_type_value,
  port_type, Port, port_types_flags, set_port_types_flags, good_output_b, set_good_output_b,
  ArtIpProgCommand, command_flags, set_command_flags,
}

low_bit : (n : ℕ) → bit_and n 1 ≡ n % 2
low_bit n =
    let e : n ≡ n / 2 * 2 + n % 2 = omega arith in
    ap (λ (t : ℕ). bit_and t 1) e ∙ bit_and_low 1 (n / 2) (n % 2) (omega arith)

-- A flag by the digit that it reads.
pub flag-eq : (flags power : ℕ) → flag flags power ≡ not (flags / power % 2 == 0)
flag-eq flags power = ap (λ (t : ℕ). not (t == 0)) (low_bit (flags / power))

pub flag-digit : (n power : ℕ) (b : Bool) → n / power % 2 ≡ bit b → flag n power ≡ b
flag-digit n power true h = flag-eq n power ∙ ground (arith, h)
flag-digit n power false h = flag-eq n power ∙ ground (arith, h)

pub bit_le : (b : Bool) → bit b ≤ 1
bit_le true = omega arith
bit_le false = omega arith

pub last-digit : (n : ℕ) (b : Bool) → n % 2 ≡ bit b → not (bit_and n 1 == 0) ≡ b
last-digit n true h = rw (low_bit n) (ground (arith, h))
last-digit n false h = rw (low_bit n) (ground (arith, h))

set_input_flags-input_flags :
    (g : GoodInput) → (set_input_flags (input_flags g) ≡ g) × (input_flags g < 256)
unfolding input_flags set_input_flags
set_input_flags-input_flags g =
    let b0 = bit_le g.data_received in
    let b1 = bit_le g.includes_dmx512_test_packets in
    let b2 = bit_le g.includes_dmx512_sips in
    let b3 = bit_le g.includes_dmx512_text_packets in
    let b4 = bit_le g.input_disabled in
    let b5 = bit_le g.receive_errors_detected in
    (
      rw
          (
            flag-digit (input_flags g) 128 g.data_received (omega arith),
            flag-digit (input_flags g) 64 g.includes_dmx512_test_packets (omega arith),
            flag-digit (input_flags g) 32 g.includes_dmx512_sips (omega arith),
            flag-digit (input_flags g) 16 g.includes_dmx512_text_packets (omega arith),
            flag-digit (input_flags g) 8 g.input_disabled (omega arith),
            flag-digit (input_flags g) 4 g.receive_errors_detected (omega arith),
          )
          refl,
      omega arith,
    )

set_output_flags-output_flags :
    (g : GoodOutputA) → (set_output_flags (output_flags g) ≡ g) × (output_flags g < 256)
unfolding output_flags set_output_flags
set_output_flags-output_flags g =
    let b0 = bit_le g.data_being_transmitted in
    let b1 = bit_le g.includes_dmx512_test_packets in
    let b2 = bit_le g.includes_dmx512_sips in
    let b3 = bit_le g.includes_dmx512_text_packets in
    let b4 = bit_le g.merging_enabled in
    let b5 = bit_le g.short_detected in
    let b6 = bit_le g.merge_is_ltp in
    let b7 = bit_le g.use_sacn in
    (
      rw
          (
            flag-digit (output_flags g) 128 g.data_being_transmitted (omega arith),
            flag-digit (output_flags g) 64 g.includes_dmx512_test_packets (omega arith),
            flag-digit (output_flags g) 32 g.includes_dmx512_sips (omega arith),
            flag-digit (output_flags g) 16 g.includes_dmx512_text_packets (omega arith),
            flag-digit (output_flags g) 8 g.merging_enabled (omega arith),
            flag-digit (output_flags g) 4 g.short_detected (omega arith),
            flag-digit (output_flags g) 2 g.merge_is_ltp (omega arith),
            last-digit (output_flags g) g.use_sacn (omega arith),
          )
          refl,
      omega arith,
    )

pub set_command_flags-command_flags :
    (c : ArtIpProgCommand) → (set_command_flags (command_flags c) ≡ c) × (command_flags c < 256)
unfolding command_flags set_command_flags
set_command_flags-command_flags c =
    let b0 = bit_le c.enable_programming in
    let b1 = bit_le c.enable_dhcp in
    let b2 = bit_le c.program_default_gateway in
    let b3 = bit_le c.set_parameters_to_default in
    let b4 = bit_le c.program_ip_address in
    let b5 = bit_le c.program_subnet_mask in
    let b6 = bit_le c.program_port in
    (
      rw
          (
            flag-digit (command_flags c) 128 c.enable_programming (omega arith),
            flag-digit (command_flags c) 64 c.enable_dhcp (omega arith),
            flag-digit (command_flags c) 16 c.program_default_gateway (omega arith),
            flag-digit (command_flags c) 8 c.set_parameters_to_default (omega arith),
            flag-digit (command_flags c) 4 c.program_ip_address (omega arith),
            flag-digit (command_flags c) 2 c.program_subnet_mask (omega arith),
            last-digit (command_flags c) c.program_port (omega arith),
          )
          refl,
      omega arith,
    )

port_type-value : (t : PortType) → (port_type (port_type_value t) ≡ ok t) × (port_type_value t < 64)
port_type-value dmx512 = (refl, omega arith)
port_type-value midi = (refl, omega arith)
port_type-value avab = (refl, omega arith)
port_type-value colortran_cmx = (refl, omega arith)
port_type-value adb_65_2 = (refl, omega arith)
port_type-value art_net = (refl, omega arith)
port_type-value dali = (refl, omega arith)

port_types-flags :
    (p : Port)
    → (set_port_types_flags (port_types_flags p)
        ≡ record { output = p.output; input = p.input; type = ok p.type })
      × (port_types_flags p < 256)
unfolding port_types_flags set_port_types_flags
port_types-flags p =
    let a = bit_le p.output in
    let b = bit_le p.input in
    let (t, low) = port_type-value p.type in
    let e : port_types_flags p ≡ (bit p.output * 2 + bit p.input) * 64 + port_type_value p.type =
      omega arith in
    let m : bit_and (port_types_flags p) 0x3F ≡ port_type_value p.type =
      ap (λ (n : ℕ). bit_and n 0x3F) e
      ∙ bit_and_low 6 (bit p.output * 2 + bit p.input) (port_type_value p.type) low in
    (
      rw
          (
            flag-digit (port_types_flags p) 128 p.output (omega arith),
            flag-digit (port_types_flags p) 64 p.input (omega arith),
            m,
            t,
          )
          refl,
      omega arith,
    )

good_output_b-flags :
    (p q : Port)
    → (set_good_output_b (good_output_b p) q
        ≡ record q { rdm_enabled = p.rdm_enabled; output_continuous = p.output_continuous })
      × (good_output_b p < 256)
unfolding good_output_b set_good_output_b
good_output_b-flags p q =
    let a = bit_le p.rdm_enabled in
    let b = bit_le p.output_continuous in
    (
      rw
          (
            flag-digit (good_output_b p) 128 p.rdm_enabled (omega arith),
            flag-digit (good_output_b p) 64 p.output_continuous (omega arith),
          )
          refl,
      omega arith,
    )

-- The flag bytes of an input, an output, a port and a command fit in a byte, and their setters read
-- back every field that was written, the type of the port included. The setter of the output byte
-- of a port gives any other port the two fields that were written, and keeps the rest of it.
pub flags_read_back :
    (i : GoodInput) (o : GoodOutputA) (p q : Port) (c : ArtIpProgCommand)
    → ((set_input_flags (input_flags i) ≡ i) × (input_flags i < 256))
      × ((set_output_flags (output_flags o) ≡ o) × (output_flags o < 256))
      × ((set_port_types_flags (port_types_flags p)
            ≡ record { output = p.output; input = p.input; type = ok p.type })
          × (port_types_flags p < 256))
      × ((set_good_output_b (good_output_b p) q
            ≡ record q { rdm_enabled = p.rdm_enabled; output_continuous = p.output_continuous })
          × (good_output_b p < 256))
      × ((set_command_flags (command_flags c) ≡ c) × (command_flags c < 256))
flags_read_back i o p q c = (
  set_input_flags-input_flags i,
  set_output_flags-output_flags o,
  port_types-flags p,
  good_output_b-flags p q,
  set_command_flags-command_flags c,
)
