-- ===== src/Sacn/Packet/Layout.antt =====
-- The lengths that the three layers of a serialized packet declare, and the multicast address.
use ha_artnet_led.Base.{
  ℕ, ◌+◌, ◌/◌, ◌%◌, ◌<◌, ◌≡◌, refl, length, arith, bit_and, bytes_below, bytes_below_sound, ==_iff,
  ◌==◌,
}
use ha_artnet_led.Base.Result.{ok}
use ha_artnet_led.Base.Bytes.{Bytes, slice, unpack_h}
use ha_artnet_led.Base.Text.{utf8_encode}
use ha_artnet_led.Sacn.Packet.{SacnPacket, serialize, get_multicast_address}
use ha_artnet_led.Sacn.Packet.Fields.{IsValid, unpack_h-two}
use ha_artnet_led.Sacn.Packet.RoundTrip.{wire, serialize-wire, length-wire, behind_cid, behind_name}

-- What `deserialize` masks out of a flags-and-length word.
length_bits : (n : ℕ) → n < 1024 → bit_and (0x7000 + n) 0x0FFF ≡ n
unfolding bytes_below
length_bits n h =
    (==_iff _ _).0 (bytes_below_sound 1024 (λ k. bit_and (0x7000 + k) 0x0FFF == k) n refl h)

-- The word at offset `i` of `b` declares, in its low twelve bits, the bytes from there to the end.
abbrev pub DeclaresRest : ℕ → Bytes → Type 0
DeclaresRest i b = (w : ℕ) × (unpack_h (slice i 2 b) ≡ ok w) × (bit_and w 0x0FFF + i ≡ length b)

declares :
    (i n : ℕ) (b : Bytes)
    → n < 1024
    → unpack_h (slice i 2 b) ≡ ok (0x7000 + n)
    → n + i ≡ length b
    → DeclaresRest i b
declares i n b h e s = (0x7000 + n, e, rw (length_bits n h) s)

-- A valid packet is serialized into 125 bytes and its data, and the lengths that the root, framing
-- and DMP layers declare reach exactly to the end of the packet.
pub serialize_lengths :
    (p : SacnPacket) (e : Bytes)
    → IsValid p
    → utf8_encode p.source_name ≡ ok e
    → (b : Bytes) × (serialize p ≡ ok b)
      × (length b ≡ 125 + length p.dmx_data)
      × DeclaresRest 16 b
      × DeclaresRest 38 b
      × DeclaresRest 115 b
serialize_lengths p e v enc =
    let n = length p.dmx_data in
    let total = length-wire p e v in
    (
      wire p e,
      serialize-wire p e v enc,
      total,
      declares 16 (22 + (77 + (10 + n))) (wire p e) (omega arith)
          (unfold slice in unpack_h-two (0x7000 + (22 + (77 + (10 + n))))) (omega (arith, total)),
      declares 38 (77 + (10 + n)) (wire p e) (omega arith)
          (rw (behind_cid p e v 0 2) (unfold slice in unpack_h-two (0x7000 + (77 + (10 + n)))))
          (omega (arith, total)),
      declares 115 (10 + n) (wire p e) (omega arith)
          (rw (behind_name p e v 7 2) (unfold slice in unpack_h-two (0x7000 + (10 + n))))
          (omega (arith, total)),
    )

-- Two universes share a multicast group only if they are the same universe.
pub get_multicast_address-injective :
    (u v : ℕ) → get_multicast_address u ≡ get_multicast_address v → u ≡ v
unfolding get_multicast_address
get_multicast_address-injective u v h =
    let hi : u / 256 ≡ v / 256 = cc in let lo : u % 256 ≡ v % 256 = cc in omega (arith, hi, lo)
