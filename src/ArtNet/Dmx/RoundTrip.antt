-- ===== src/ArtNet/Dmx/RoundTrip.antt =====
-- `ArtDmx`: what arrives of what is sent.
use ha_artnet_led.Base.{
  ℕ, ◌+◌, ◌*◌, ◌/◌, ◌%◌, ◌<◌, ◌≤◌, ◌≡◌, ◌↔◌, refl, ap, ◌∙◌, ◌∷◌, ◌++◌, length, arith, bit_or,
  take_all,
}
use ha_artnet_led.Base.Result.{ok}
use ha_artnet_led.Base.Bytes.{Bytes, slice}
use ha_artnet_led.ArtNet.Address.{PortAddress, IsAddress, port_address, set_port_address}
use ha_artnet_led.ArtNet.Address.Laws.{
  low_4, port_address-sum, set_port_address-IsAddress, set_port_address-fields, parse-port_address,
}
use ha_artnet_led.ArtNet.Codec.{
  returned, next, outcome, pop, take_bytes, consume_int_msb, deserialize_base,
}
use ha_artnet_led.ArtNet.Codec.Laws.{
  append-eq, append_int_msb-eq, serialize_base-eq, header_bytes, deserialize_base_header, msb_word,
  take_at, pop_at, word_sum, after,
}
use ha_artnet_led.ArtNet.Dmx.{ArtDmx, op_output_dmx, serialize_dmx, deserialize_dmx, read_dmx}

-- A packet as the constructor and the server make it.
pub record IsDmx (d : ArtDmx) : Type 0 where
  pub version_low : d.protocol_version < 65536
  pub sequence_low : d.sequence_number < 256
  pub physical_low : d.physical < 4
  pub address_valid : IsAddress d.address
  pub payload_short : length d.payload ≤ 512

-- The two address bytes that `serialize` writes: four bits of the low byte, and four of the next.
abbrev pub sent_sub_uni : PortAddress → ℕ
sent_sub_uni a = port_address a % 16

abbrev pub sent_net : PortAddress → ℕ
sent_net a = port_address a / 256 % 16

abbrev dmx_wire : ArtDmx → Bytes
dmx_wire d =
    header_bytes op_output_dmx
    ++ (d.protocol_version / 256 % 256
        ∷ d.protocol_version % 256
        ∷ d.sequence_number
        ∷ d.physical
        ∷ sent_sub_uni d.address
        ∷ sent_net d.address
        ∷ length d.payload / 256 % 256
        ∷ length d.payload % 256
        ∷ d.payload)

serialize_dmx-wire : (d : ArtDmx) → IsDmx d → serialize_dmx d ≡ ok (dmx_wire d)
unfolding serialize_dmx
serialize_dmx-wire d h = rw (
  append-eq d.sequence_number (omega arith),
  append-eq d.physical (omega arith),
  low_4 (port_address d.address),
  low_4 (port_address d.address / 256),
  append-eq (port_address d.address % 16) (omega arith),
  append-eq (port_address d.address / 256 % 16) (omega arith),
  serialize_base-eq op_output_dmx,
  append_int_msb-eq d.protocol_version,
  append_int_msb-eq (length d.payload),
)

-- The address that `deserialize` puts together.
abbrev pub received_address : PortAddress → PortAddress
received_address a = set_port_address (bit_or (sent_net a * 256) (sent_sub_uni a))

read_dmx-wire :
    (d fresh : ArtDmx)
    → IsDmx d
    → read_dmx (dmx_wire d) fresh 0
      ≡ next tt (record d { address = received_address d.address }) (18 + length d.payload)
unfolding read_dmx slice
read_dmx-wire d fresh h =
    let w = dmx_wire d in
    after (deserialize_base w op_output_dmx) _
      (deserialize_base_header op_output_dmx _ fresh 0 (omega arith))
    ∙ after (consume_int_msb w) _
        (msb_word w _ 10 d.protocol_version (omega arith) (omega arith) refl)
    ∙ after (pop w) _ (pop_at w _ 12 _ refl)
    ∙ after (pop w) _ (pop_at w _ 13 _ refl)
    ∙ after (pop w) _ (pop_at w _ 14 _ refl)
    ∙ after (pop w) _ (pop_at w _ 15 _ refl)
    ∙ after (consume_int_msb w) _
        (msb_word w _ 16 (length d.payload) (omega arith) (omega arith) refl)
    ∙ after (take_bytes w (length d.payload)) _ (
        take_at w _ 18 (length d.payload) d.payload
          (take_all (length d.payload) d.payload (omega arith)))

-- A packet of the server is serialized, and its deserialization gives back every field but the port
-- address, of which two groups of four bits arrive.
pub deserialize-serialize_dmx :
    (d fresh : ArtDmx)
    → IsDmx d
    → (b : Bytes) × (serialize_dmx d ≡ ok b)
      × (deserialize_dmx b fresh
          ≡ returned (record d { address = received_address d.address }) (18 + length d.payload))
unfolding deserialize_dmx
deserialize-serialize_dmx d fresh h =
    (dmx_wire d, serialize_dmx-wire d h, ap outcome (read_dmx-wire d fresh h))

-- The number of the address that arrives.
received_number :
    (a : PortAddress) → port_address (received_address a) ≡ sent_net a * 256 + sent_sub_uni a
received_number a =
    let v = bit_or (sent_net a * 256) (sent_sub_uni a) in
    let e : v ≡ sent_net a * 256 + sent_sub_uni a =
      word_sum (sent_net a) (sent_sub_uni a) (omega arith) in
    port_address-sum (set_port_address v) (set_port_address-IsAddress v)
    ∙ rw (set_port_address-fields v) (omega (arith, e))

arrives_iff :
    (a : PortAddress)
    → IsAddress a
    → (received_address a ≡ a) ↔ ((port_address a % 256 < 16) × (port_address a < 4096))
arrives_iff a h = (
  λ e. omega (arith, received_number a, ap port_address e),
  λ p.
      let v : bit_or (sent_net a * 256) (sent_sub_uni a) ≡ port_address a =
        word_sum (sent_net a) (sent_sub_uni a) (omega arith) ∙ omega arith in
      ap set_port_address v ∙ (parse-port_address a h).0,
)

net_lost : (a : PortAddress) → (received_address a).net ≡ 0
net_lost a =
    let e = word_sum (sent_net a) (sent_sub_uni a) (omega arith) in
    rw (set_port_address-fields (bit_or (sent_net a * 256) (sent_sub_uni a))) (omega (arith, e))

-- Of a packet that is serialized and deserialized, the port address arrives unchanged exactly if
-- its number is below 4096 and the low byte of the number is below 16; the net that arrives is 0
-- whatever net was sent.
pub dmx_address_arrives :
    (d fresh : ArtDmx)
    → IsDmx d
    → (b : Bytes) × (d' : ArtDmx) × (n : ℕ) × (serialize_dmx d ≡ ok b)
      × (deserialize_dmx b fresh ≡ returned d' n)
      × ((d'.address ≡ d.address)
          ↔ ((port_address d.address % 256 < 16) × (port_address d.address < 4096)))
      × (d'.address.net ≡ 0)
dmx_address_arrives d fresh h =
    let (b, sent, received) = deserialize-serialize_dmx d fresh h in
    (
      b,
      record d { address = received_address d.address },
      18 + length d.payload,
      sent,
      received,
      arrives_iff d.address h.address_valid,
      net_lost d.address,
    )
