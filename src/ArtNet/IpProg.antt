-- ===== src/ArtNet/IpProg.antt =====
-- `ArtIpProg` and `ArtIpProgReply` of custom_components/dmx/server/__init__.py.
pub mod RoundTrip
use ha_artnet_led.Base.{ℕ, ◌*◌, Bool, List, [], ◌∷◌, ◌++◌, bit, ◌==◌, length, replicate}
use ha_artnet_led.Base.Result.{Result, ok, Exc, check, ◌>>=◌ as ◌>>=ʳ◌, ◌>>◌ as ◌>>ʳ◌}
use ha_artnet_led.Base.Bytes.{Bytes}
use ha_artnet_led.ArtNet.Flags.{flag, ArtIpProgCommand, command_flags, set_command_flags}
use ha_artnet_led.ArtNet.Codec.{
  Reader, Outcome, outcome, assign, skip, raise_unless, ◌>>=◌, ◌>>◌, append, append_int_msb,
  serialize_base, pop, take_bytes, consume_int_msb, deserialize_base,
}

pub record ArtIpProg : Type 0 where
  pub protocol_version : ℕ
  pub command : ArtIpProgCommand
  pub prog_ip : Bytes
  pub prog_subnet : Bytes
  pub prog_gateway : Bytes

abbrev pub op_ip_prog : ℕ
op_ip_prog = 0xF800

-- `ArtIpProg.__init__`, its arguments given.
unfoldable pub make_ip_prog : ℕ → ArtIpProgCommand → Bytes → Bytes → Bytes → Result ArtIpProg
make_ip_prog protocol_version command prog_ip prog_subnet prog_gateway =
    check (length prog_ip == 4)
    >>ʳ (check (length prog_subnet == 4)
        >>ʳ (check (length prog_gateway == 4)
            >>ʳ ok (record {
              protocol_version = protocol_version;
              command = command;
              prog_ip = prog_ip;
              prog_subnet = prog_subnet;
              prog_gateway = prog_gateway;
            })))

-- `ArtIpProg.serialize`
unfoldable pub serialize_ip_prog : ArtIpProg → Result Bytes
serialize_ip_prog p = append (command_flags p.command) >>=ʳ λ flags. ok (
    serialize_base op_ip_prog
    ++ (append_int_msb p.protocol_version
        ++ (replicate 2 0x00
            ++ (flags
                ++ (0x00
                    ∷ (p.prog_ip
                        ++ (p.prog_subnet
                            ++ (replicate 2 0x00 ++ (p.prog_gateway ++ replicate 4 0x00)))))))))

-- `ArtIpProg.deserialize`
unfoldable pub read_ip_prog : Bytes → Reader ArtIpProg (Unit {0})
read_ip_prog packet = do
  deserialize_base packet op_ip_prog
  version ← consume_int_msb packet
  assign (λ s. record s { protocol_version = version })
  raise_unless (version == 14) Exc.serialization_error
  skip 2
  flags ← pop packet
  assign (λ s. record s { command = set_command_flags flags })
  skip 1
  ip ← take_bytes packet 4
  assign (λ s. record s { prog_ip = ip })
  subnet ← take_bytes packet 4
  assign (λ s. record s { prog_subnet = subnet })
  skip 2
  gateway ← take_bytes packet 4
  assign (λ s. record s { prog_gateway = gateway })
  skip 4

unfoldable pub deserialize_ip_prog : Bytes → ArtIpProg → Outcome ArtIpProg
unfolding read_ip_prog
deserialize_ip_prog packet self = outcome (read_ip_prog packet self 0)

pub record ArtIpProgReply : Type 0 where
  pub protocol_version : ℕ
  pub prog_ip : Bytes
  pub prog_subnet : Bytes
  pub prog_gateway : Bytes
  pub dhcp_enabled : Bool

abbrev pub op_ip_prog_reply : ℕ
op_ip_prog_reply = 0xF900

-- `ArtIpProgReply.__init__`, its arguments given.
unfoldable pub make_ip_prog_reply : ℕ → Bytes → Bytes → Bytes → Bool → Result ArtIpProgReply
make_ip_prog_reply protocol_version prog_ip prog_subnet prog_gateway dhcp_enabled =
    check (length prog_ip == 4)
    >>ʳ (check (length prog_subnet == 4)
        >>ʳ (check (length prog_gateway == 4)
            >>ʳ ok (record {
              protocol_version = protocol_version;
              prog_ip = prog_ip;
              prog_subnet = prog_subnet;
              prog_gateway = prog_gateway;
              dhcp_enabled = dhcp_enabled;
            })))

-- `ArtIpProgReply.serialize`
unfoldable pub serialize_ip_prog_reply : ArtIpProgReply → Result Bytes
serialize_ip_prog_reply p = append (bit p.dhcp_enabled * 64) >>=ʳ λ status. ok (
    serialize_base op_ip_prog_reply
    ++ (append_int_msb p.protocol_version
        ++ (replicate 4 0x00
            ++ (p.prog_ip
                ++ (p.prog_subnet
                    ++ (replicate 2 0x00
                        ++ (status ++ (0x00 ∷ (p.prog_gateway ++ replicate 2 0x00)))))))))

-- `ArtIpProgReply.deserialize`
unfoldable pub read_ip_prog_reply : Bytes → Reader ArtIpProgReply (Unit {0})
read_ip_prog_reply packet = do
  deserialize_base packet op_ip_prog_reply
  version ← consume_int_msb packet
  assign (λ s. record s { protocol_version = version })
  raise_unless (version == 14) Exc.serialization_error
  skip 4
  ip ← take_bytes packet 4
  assign (λ s. record s { prog_ip = ip })
  subnet ← take_bytes packet 4
  assign (λ s. record s { prog_subnet = subnet })
  skip 2
  status ← pop packet
  assign (λ s. record s { dhcp_enabled = flag status 64 })
  skip 1
  gateway ← take_bytes packet 4
  assign (λ s. record s { prog_gateway = gateway })
  skip 2

unfoldable pub deserialize_ip_prog_reply : Bytes → ArtIpProgReply → Outcome ArtIpProgReply
unfolding read_ip_prog_reply
deserialize_ip_prog_reply packet self = outcome (read_ip_prog_reply packet self 0)
