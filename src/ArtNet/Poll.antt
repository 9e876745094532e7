-- ===== src/ArtNet/Poll.antt =====
-- `ArtPoll` of custom_components/dmx/server/__init__.py, with the priorities of diagnostics.
-- The two bounds are two addresses here; the setter leaves one object as both.
pub mod RoundTrip
use ha_artnet_led.Base.{
  ℕ, ◌+◌, ◌*◌, Bool, true, false, ◌&&◌, List, [], ◌∷◌, ◌++◌, length, bit, ◌==◌, ltb, if◌then◌else◌,
}
use ha_artnet_led.Base.Result.{Result, ok, err, Exc, ◌>>=◌ as ◌>>=ʳ◌}
use ha_artnet_led.Base.Bytes.{Bytes}
use ha_artnet_led.ArtNet.Address.{PortAddress, port_address, set_port_address}
use ha_artnet_led.ArtNet.Flags.{flag}
use ha_artnet_led.ArtNet.Codec.{
  Reader, Outcome, outcome, assign, lift, when, ◌>>=◌, ◌>>◌, append, append_int_msb, serialize_base,
  pop, consume_int_msb, deserialize_base,
}

pub data DiagnosticsPriority : Type 0 where
  dp_unknown dp_low dp_med dp_high dp_critical dp_volatile : DiagnosticsPriority

abbrev pub priority_value : DiagnosticsPriority → ℕ
priority_value dp_unknown = 0x00
priority_value dp_low = 0x10
priority_value dp_med = 0x40
priority_value dp_high = 0x80
priority_value dp_critical = 0xE0
priority_value dp_volatile = 0xF0

-- `DiagnosticsPriority(value)`
abbrev pub priority_of : ℕ → Result DiagnosticsPriority
priority_of value =
    if value == 0x00
    then ok dp_unknown
    else (if value == 0x10
        then ok dp_low
        else (if value == 0x40
            then ok dp_med
            else (if value == 0x80
                then ok dp_high
                else (if value == 0xE0
                    then ok dp_critical
                    else (if value == 0xF0 then ok dp_volatile else err Exc.value_error)))))

-- The mode of the diagnostics is BROADCAST or not.
pub record ArtPoll : Type 0 where
  pub protocol_version : ℕ
  pub enable_vlc_transmission : Bool
  pub notify_on_change : Bool
  pub enable_diagnostics : Bool
  pub diag_priority : DiagnosticsPriority
  pub diag_broadcast : Bool
  pub enable_targeted_mode : Bool
  pub target_port_bottom : PortAddress
  pub target_port_top : PortAddress

abbrev pub op_poll : ℕ
op_poll = 0x2000

-- `ArtPoll.__init__`
unfoldable pub make_poll : ℕ → Bool → Bool → ArtPoll
make_poll protocol_version enable_vlc_transmission notify_on_change = record {
  protocol_version = protocol_version;
  enable_vlc_transmission = enable_vlc_transmission;
  notify_on_change = notify_on_change;
  enable_diagnostics = false;
  diag_priority = dp_low;
  diag_broadcast = true;
  enable_targeted_mode = false;
  target_port_bottom = record { net = 0x0; sub_net = 0x0; universe = 0x0 };
  target_port_top = record { net = 0xF; sub_net = 0xF; universe = 0x199 };
}

-- `enable_diagnostics`
unfoldable pub enable_poll_diagnostics : Bool → DiagnosticsPriority → ArtPoll → ArtPoll
enable_poll_diagnostics broadcast diag_priority p = record p {
  enable_diagnostics = true;
  diag_priority = diag_priority;
  diag_broadcast = broadcast;
}

-- The setter of `target_port_bounds`, which takes the first bound twice.
unfoldable pub set_target_port_bounds : PortAddress → PortAddress → ArtPoll → ArtPoll
set_target_port_bounds bottom top p = record p {
  target_port_bottom = bottom;
  target_port_top = bottom;
  enable_targeted_mode = true;
}

abbrev pub poll_flags : ArtPoll → ℕ
poll_flags p =
    bit p.enable_targeted_mode * 32
    + bit p.enable_vlc_transmission * 16
    + bit p.diag_broadcast * 8
    + bit p.enable_diagnostics * 4
    + bit p.notify_on_change * 2

-- `ArtPoll.serialize`
unfoldable pub serialize_poll : ArtPoll → Result Bytes
serialize_poll p = append (poll_flags p) >>=ʳ λ flags.
    append (priority_value p.diag_priority) >>=ʳ λ priority. ok (
      serialize_base op_poll
      ++ (append_int_msb p.protocol_version
          ++ (flags
              ++ (priority
                  ++ (append_int_msb (port_address p.target_port_top)
                      ++ append_int_msb (port_address p.target_port_bottom))))))

-- The bounds at the end of the packet.
unfoldable pub read_bounds : Bytes → Reader ArtPoll (Unit {0})
read_bounds packet = do
  top ← consume_int_msb packet
  assign (λ s. record s { target_port_top = set_port_address top })
  bottom ← consume_int_msb packet
  assign (λ s. record s { target_port_bottom = set_port_address bottom })

-- `ArtPoll.deserialize`
unfoldable pub read_poll : Bytes → Reader ArtPoll (Unit {0})
read_poll packet = do
  deserialize_base packet op_poll
  version ← consume_int_msb packet
  assign (λ s. record s { protocol_version = version })
  flags ← pop packet
  assign (λ s. record s {
    enable_targeted_mode = flag flags 32;
    enable_vlc_transmission = flag flags 16;
    diag_broadcast = flag flags 8;
    enable_diagnostics = flag flags 4;
    notify_on_change = flag flags 2;
  })
  value ← pop packet
  priority ← lift (priority_of value)
  assign (λ s. record s { diag_priority = priority })
  when (λ s i. s.enable_targeted_mode && ltb i (length packet)) (read_bounds packet)

unfoldable pub deserialize_poll : Bytes → ArtPoll → Outcome ArtPoll
unfolding read_poll
deserialize_poll packet self = outcome (read_poll packet self 0)
