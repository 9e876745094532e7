-- ===== src/ArtNet/Dmx.antt =====
-- `ArtDmx` of custom_components/dmx/server/__init__.py.
pub mod RoundTrip
use ha_artnet_led.Base.{
  ℕ, ◌+◌, ◌*◌, ◌/◌, List, [], ◌∷◌, ◌++◌, length, replicate, leb, bit_and, bit_or,
}
use ha_artnet_led.Base.Result.{Result, ok, check, ◌>>=◌ as ◌>>=ʳ◌, ◌>>◌ as ◌>>ʳ◌}
use ha_artnet_led.Base.Bytes.{Bytes}
use ha_artnet_led.ArtNet.Address.{PortAddress, port_address, set_port_address}
use ha_artnet_led.ArtNet.Codec.{
  Reader, Outcome, outcome, assign, ◌>>=◌, ◌>>◌, append, append_int_msb, serialize_base, pop,
  take_bytes, consume_int_msb, deserialize_base,
}

pub record ArtDmx : Type 0 where
  pub protocol_version : ℕ
  pub sequence_number : ℕ
  pub physical : ℕ
  pub address : PortAddress
  pub payload : Bytes

abbrev pub op_output_dmx : ℕ
op_output_dmx = 0x5000

-- `ArtDmx.__init__`
unfoldable pub make_dmx : ℕ → ℕ → ℕ → PortAddress → Bytes → Result ArtDmx
make_dmx protocol_version sequence_number physical address payload =
    check (leb sequence_number 0xFF)
    >>ʳ (check (leb physical 3)
        >>ʳ (check (leb (length payload) 512)
            >>ʳ ok (record {
              protocol_version = protocol_version;
              sequence_number = sequence_number;
              physical = physical;
              address = address;
              payload = payload;
            })))

-- `ArtDmx.serialize`
unfoldable pub serialize_dmx : ArtDmx → Result Bytes
serialize_dmx d = append d.sequence_number >>=ʳ λ seq. append d.physical >>=ʳ λ phys.
    append (bit_and (port_address d.address) 0x0F) >>=ʳ λ sub_uni.
    append (bit_and (port_address d.address / 256) 0x0F) >>=ʳ λ net. ok (
      serialize_base op_output_dmx
      ++ (append_int_msb d.protocol_version
          ++ (seq
              ++ (phys ++ (sub_uni ++ (net ++ (append_int_msb (length d.payload) ++ d.payload)))))))

-- `ArtDmx.deserialize`
unfoldable pub read_dmx : Bytes → Reader ArtDmx (Unit {0})
read_dmx packet = do
  deserialize_base packet op_output_dmx
  version ← consume_int_msb packet
  assign (λ s. record s { protocol_version = version })
  seq ← pop packet
  assign (λ s. record s { sequence_number = seq })
  phys ← pop packet
  assign (λ s. record s { physical = phys })
  sub_uni ← pop packet
  net ← pop packet
  assign (λ s. record s { address = set_port_address (bit_or (net * 256) sub_uni) })
  data_length ← consume_int_msb packet
  payload ← take_bytes packet data_length
  assign (λ s. record s { payload = payload })

unfoldable pub deserialize_dmx : Bytes → ArtDmx → Outcome ArtDmx
unfolding read_dmx
deserialize_dmx packet self = outcome (read_dmx packet self 0)
