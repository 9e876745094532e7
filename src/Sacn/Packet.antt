-- ===== src/Sacn/Packet.antt =====
-- The packet classes of custom_components/dmx/server/sacn_packet.py.
pub mod Fields
pub mod RoundTrip
pub mod Layout
pub mod Accepts
pub mod Fails
pub mod Channels
use ha_artnet_led.Base.{
  ℕ, ◌+◌, ◌-◌, ◌/◌, ◌%◌, ◌<◌, ◌≤◌, ◌≡◌, Bool, true, false, not, ◌&&◌, List, [], ◌∷◌, ◌++◌, length,
  take, drop, set, replicate, get_or, All, ltb, leb, ◌==◌, if◌then◌else◌, bit_and, bit_or,
}
use ha_artnet_led.Base.Result.{Result, ok, err, Exc, ◌>>=◌, ◌>>◌, check, raise_if}
use ha_artnet_led.Base.Bytes.{
  Bytes, IsByte, slice, pack_b, pack_h, pack_i, unpack_b, unpack_h, unpack_i, rstrip_nul,
}
use ha_artnet_led.Base.Text.{Text, utf8_encode, utf8_decode}

-- ACN_PACKET_IDENTIFIER, and the vectors of the three layers.
abbrev pub acn_packet_identifier : Bytes
acn_packet_identifier =
    0x41 ∷ 0x53 ∷ 0x43 ∷ 0x2d ∷ 0x45 ∷ 0x31 ∷ 0x2e ∷ 0x31 ∷ 0x37 ∷ 0 ∷ 0 ∷ 0 ∷ []

abbrev pub root_vector : ℕ
root_vector = 0x00000004

abbrev pub framing_vector : ℕ
framing_vector = 0x00000002

abbrev pub dmp_vector : ℕ
dmp_vector = 0x02

abbrev pub dmp_address_type_data_type : ℕ
dmp_address_type_data_type = 0xA1

pub record SacnOptions : Type 0 where
  pub preview_data : Bool
  pub stream_terminated : Bool
  pub force_synchronization : Bool

pub record SacnPacket : Type 0 where
  pub source_name : Text
  pub priority : ℕ
  pub universe : ℕ
  pub sequence_number : ℕ
  pub options : SacnOptions
  pub cid : Bytes
  pub dmx_data : Bytes

-- Equality of byte strings, `==` in Python.
abbrev pub bytes_eq : Bytes → Bytes → Bool
bytes_eq [] [] = true
bytes_eq [] (y ∷ ys) = false
bytes_eq (x ∷ xs) [] = false
bytes_eq (x ∷ xs) (y ∷ ys) = x == y && bytes_eq xs ys

-- `__post_init__`: the assertions, then empty data become 513 zero bytes.
unfoldable pub post_init : SacnPacket → Result SacnPacket
post_init p = do
  check (leb 1 (length p.source_name) && leb (length p.source_name) 63)
  check (leb p.priority 200)
  check (leb 1 p.universe && leb p.universe 63999)
  check (leb p.sequence_number 255)
  check (length p.cid == 16)
  check (leb (length p.dmx_data) 513)
  ok (if length p.dmx_data == 0 then record p { dmx_data = replicate 513 0 } else p)

-- `start_code` and `channel_data`
unfoldable pub start_code : SacnPacket → ℕ
start_code p = get_or p.dmx_data 0 0

unfoldable pub channel_data : SacnPacket → Bytes
channel_data p = drop 1 p.dmx_data

-- `set_dmx_channel`: the data grow with zeros up to the channel.
unfoldable pub set_dmx_channel : SacnPacket → ℕ → ℕ → Result SacnPacket
set_dmx_channel p channel value = do
  check (leb 1 channel && leb channel 512)
  check (leb value 255)
  let grown = p.dmx_data ++ replicate (channel + 1 - length p.dmx_data) 0
  ok (record p { dmx_data = set grown channel value })

unfoldable pub set_dmx_data : SacnPacket → Bytes → Result SacnPacket
set_dmx_data p new_data = do
  check (leb (length new_data) 513)
  ok (record p { dmx_data = new_data })

-- `get_multicast_address`: the four numbers of 239.255.hi.lo.
unfoldable pub get_multicast_address : ℕ → List ℕ
get_multicast_address universe = 239 ∷ 255 ∷ (universe / 256) ∷ (universe % 256) ∷ []

-- `dmx_data_out[0] = 0x00`, if there is such a byte.
abbrev pub clear_start_code : Bytes → Bytes
clear_start_code [] = []
clear_start_code (x ∷ xs) = 0x00 ∷ xs

-- The options byte, set bit by bit with `|=`.
unfoldable pub options_byte : SacnOptions → ℕ
options_byte o =
    let a : ℕ = if o.preview_data then bit_or 0 0x80 else 0 in
    let b : ℕ = if o.stream_terminated then bit_or a 0x40 else a in
    if o.force_synchronization then bit_or b 0x20 else b

unfoldable pub options_of_byte : ℕ → SacnOptions
options_of_byte b = record {
  preview_data = not (bit_and b 0x80 == 0);
  stream_terminated = not (bit_and b 0x40 == 0);
  force_synchronization = not (bit_and b 0x20 == 0);
}

-- `source_name_bytes + b"\x00" * (64 - len(source_name_bytes))`, cut to 63 bytes before.
unfoldable pub padded_name : Bytes → Bytes
padded_name encoded = let cut = take 63 encoded in cut ++ replicate (64 - length cut) 0

-- `SacnPacket.serialize`
unfoldable pub serialize : SacnPacket → Result Bytes
unfolding padded_name
serialize p = do
  let dmx_data_out = clear_start_code p.dmx_data
  let dmp_layer_length = 10 + length dmx_data_out
  let framing_layer_length = 77 + dmp_layer_length
  let root_layer_length = 22 + framing_layer_length
  preamble ← pack_h 0x0010
  postamble ← pack_h 0x0000
  root_flength ← pack_h (bit_or 0x7000 root_layer_length)
  vector_root ← pack_i root_vector
  framing_flength ← pack_h (bit_or 0x7000 framing_layer_length)
  vector_framing ← pack_i framing_vector
  encoded ← utf8_encode p.source_name
  prio ← pack_b p.priority
  reserved ← pack_h 0x0000
  seq ← pack_b p.sequence_number
  opts ← pack_b (options_byte p.options)
  uni ← pack_h p.universe
  dmp_flength ← pack_h (bit_or 0x7000 dmp_layer_length)
  vector_dmp ← pack_b dmp_vector
  address_type ← pack_b dmp_address_type_data_type
  first_address ← pack_h 0x0000
  increment ← pack_h 0x0001
  value_count ← pack_h (length dmx_data_out)
  ok (
      preamble
      ++ (postamble
          ++ (acn_packet_identifier
              ++ (root_flength
                  ++ (vector_root
                      ++ (p.cid
                          ++ (framing_flength
                              ++ (vector_framing
                                  ++ (padded_name encoded
                                      ++ (prio
                                          ++ (reserved
                                              ++ (seq
                                                  ++ (opts
                                                      ++ (uni
                                                          ++ (dmp_flength
                                                            ++ (vector_dmp
                                                            ++ (address_type
                                                            ++ (first_address
                                                            ++ (increment
                                                            ++ (value_count
                                                            ++ dmx_data_out))))))))))))))))))))

-- `SacnPacket.deserialize`; the slices at fixed offsets, in the order of the code.
unfoldable pub deserialize : Bytes → Result SacnPacket
deserialize packet = do
  raise_if (ltb (length packet) 126) Exc.value_error
  preamble_size ← unpack_h (slice 0 2 packet)
  postamble_size ← unpack_h (slice 2 2 packet)
  raise_if (not (bytes_eq (slice 4 12 packet) acn_packet_identifier)) Exc.value_error
  root_flength ← unpack_h (slice 16 2 packet)
  root ← unpack_i (slice 18 4 packet)
  raise_if (not (root == root_vector)) Exc.value_error
  let cid = slice 22 16 packet
  framing_flength ← unpack_h (slice 38 2 packet)
  framing ← unpack_i (slice 40 4 packet)
  raise_if (not (framing == framing_vector)) Exc.value_error
  source_name ← utf8_decode (rstrip_nul (slice 44 64 packet))
  priority ← unpack_b (slice 108 1 packet)
  reserved ← unpack_h (slice 109 2 packet)
  sequence_number ← unpack_b (slice 111 1 packet)
  opts ← unpack_b (slice 112 1 packet)
  universe ← unpack_h (slice 113 2 packet)
  dmp_flength ← unpack_h (slice 115 2 packet)
  dmp ← unpack_b (slice 117 1 packet)
  raise_if (not (dmp == dmp_vector)) Exc.value_error
  address_type ← unpack_b (slice 118 1 packet)
  first_address ← unpack_h (slice 119 2 packet)
  increment ← unpack_h (slice 121 2 packet)
  property_value_count ← unpack_h (slice 123 2 packet)
  post_init (record {
    source_name = source_name;
    priority = priority;
    universe = universe;
    sequence_number = sequence_number;
    options = options_of_byte opts;
    cid = cid;
    dmx_data = slice 125 property_value_count packet;
  })
