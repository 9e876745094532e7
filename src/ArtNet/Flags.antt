-- ===== src/ArtNet/Flags.antt =====
-- The flag bytes of custom_components/dmx/server/__init__.py: GoodInput, GoodOutputA, Port and
-- ArtIpProgCommand.
pub mod RoundTrip
use ha_artnet_led.Base.{ℕ, ◌+◌, ◌*◌, ◌/◌, Bool, true, false, not, bit, ◌==◌, bit_and, if◌then◌else◌}
use ha_artnet_led.Base.Result.{Result, ok, err, Exc, ◌>>=◌}

-- `bool(flags >> k & 1)`, the shift given as the power of two.
abbrev pub flag : ℕ → ℕ → Bool
flag flags power = not (bit_and (flags / power) 1 == 0)

pub record GoodInput : Type 0 where
  pub data_received : Bool
  pub includes_dmx512_test_packets : Bool
  pub includes_dmx512_sips : Bool
  pub includes_dmx512_text_packets : Bool
  pub input_disabled : Bool
  pub receive_errors_detected : Bool

unfoldable pub input_flags : GoodInput → ℕ
input_flags g =
    bit g.data_received * 128
    + bit g.includes_dmx512_test_packets * 64
    + bit g.includes_dmx512_sips * 32
    + bit g.includes_dmx512_text_packets * 16
    + bit g.input_disabled * 8
    + bit g.receive_errors_detected * 4

unfoldable pub set_input_flags : ℕ → GoodInput
set_input_flags flags = record {
  data_received = flag flags 128;
  includes_dmx512_test_packets = flag flags 64;
  includes_dmx512_sips = flag flags 32;
  includes_dmx512_text_packets = flag flags 16;
  input_disabled = flag flags 8;
  receive_errors_detected = flag flags 4;
}

pub record GoodOutputA : Type 0 where
  pub data_being_transmitted : Bool
  pub includes_dmx512_test_packets : Bool
  pub includes_dmx512_sips : Bool
  pub includes_dmx512_text_packets : Bool
  pub merging_enabled : Bool
  pub short_detected : Bool
  pub merge_is_ltp : Bool
  pub use_sacn : Bool

unfoldable pub output_flags : GoodOutputA → ℕ
output_flags g =
    bit g.data_being_transmitted * 128
    + bit g.includes_dmx512_test_packets * 64
    + bit g.includes_dmx512_sips * 32
    + bit g.includes_dmx512_text_packets * 16
    + bit g.merging_enabled * 8
    + bit g.short_detected * 4
    + bit g.merge_is_ltp * 2
    + bit g.use_sacn

unfoldable pub set_output_flags : ℕ → GoodOutputA
set_output_flags flags = record {
  data_being_transmitted = flag flags 128;
  includes_dmx512_test_packets = flag flags 64;
  includes_dmx512_sips = flag flags 32;
  includes_dmx512_text_packets = flag flags 16;
  merging_enabled = flag flags 8;
  short_detected = flag flags 4;
  merge_is_ltp = flag flags 2;
  use_sacn = not (bit_and flags 1 == 0);
}

pub data PortType : Type 0 where
  dmx512 midi avab colortran_cmx adb_65_2 art_net dali : PortType

abbrev pub port_type_value : PortType → ℕ
port_type_value dmx512 = 0
port_type_value midi = 1
port_type_value avab = 2
port_type_value colortran_cmx = 3
port_type_value adb_65_2 = 4
port_type_value art_net = 5
port_type_value dali = 6

-- `PortType(value)`
abbrev pub port_type : ℕ → Result PortType
port_type value =
    if value == 0
    then ok dmx512
    else (if value == 1
        then ok midi
        else (if value == 2
            then ok avab
            else (if value == 3
                then ok colortran_cmx
                else (if value == 4
                    then ok adb_65_2
                    else (if value == 5
                        then ok art_net
                        else (if value == 6 then ok dali else err Exc.value_error))))))

pub record Port : Type 0 where
  pub input : Bool
  pub output : Bool
  pub type : PortType
  pub good_input : GoodInput
  pub good_output_a : GoodOutputA
  pub sw_in : ℕ
  pub sw_out : ℕ
  pub rdm_enabled : Bool
  pub output_continuous : Bool

unfoldable pub port_types_flags : Port → ℕ
port_types_flags p = bit p.output * 128 + bit p.input * 64 + port_type_value p.type

-- The setter; where the type is unknown, the two flags are set by then.
pub record PortTypes : Type 0 where
  pub output : Bool
  pub input : Bool
  pub type : Result PortType

unfoldable pub set_port_types_flags : ℕ → PortTypes
set_port_types_flags flags = record {
  output = flag flags 128;
  input = flag flags 64;
  type = port_type (bit_and flags 0x3F);
}

unfoldable pub good_output_b : Port → ℕ
good_output_b p = bit p.rdm_enabled * 128 + bit p.output_continuous * 64

unfoldable pub set_good_output_b : ℕ → Port → Port
set_good_output_b flags p = record p {
  rdm_enabled = flag flags 128;
  output_continuous = flag flags 64;
}

pub record ArtIpProgCommand : Type 0 where
  pub enable_programming : Bool
  pub enable_dhcp : Bool
  pub program_default_gateway : Bool
  pub set_parameters_to_default : Bool
  pub program_ip_address : Bool
  pub program_subnet_mask : Bool
  pub program_port : Bool

unfoldable pub command_flags : ArtIpProgCommand → ℕ
command_flags c =
    bit c.enable_programming * 128
    + bit c.enable_dhcp * 64
    + bit c.program_default_gateway * 16
    + bit c.set_parameters_to_default * 8
    + bit c.program_ip_address * 4
    + bit c.program_subnet_mask * 2
    + bit c.program_port

unfoldable pub set_command_flags : ℕ → ArtIpProgCommand
set_command_flags flags = record {
  enable_programming = flag flags 128;
  enable_dhcp = flag flags 64;
  program_default_gateway = flag flags 16;
  set_parameters_to_default = flag flags 8;
  program_ip_address = flag flags 4;
  program_subnet_mask = flag flags 2;
  program_port = not (bit_and flags 1 == 0);
}
