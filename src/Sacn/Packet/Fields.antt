-- ===== src/Sacn/Packet/Fields.antt =====
-- What each field of a packet is on the wire, for valid packets: the packed numbers, the options
-- byte, the flags-and-length words and the padded source name.
use ha_artnet_led.Base.{
  ℕ, ◌+◌, ◌-◌, ◌/◌, ◌%◌, ◌<◌, ◌≤◌, ◌≡◌, refl, ap, Bool, true, false, [], ◌∷◌, length, take, drop,
  replicate, length-append, length-replicate, take_all, length-take, drop-add, All, arith, ◌==◌,
  bit_or, bytes_below, bytes_below_sound, ==_iff,
}
use ha_artnet_led.Base.Result.{ok}
use ha_artnet_led.Base.Bytes.{
  Bytes, slice, pack_b, pack_h, unpack_h, rstrip_nul, rstrip_nul-append_nuls,
}
use ha_artnet_led.Base.Text.RoundTrip.{IsCodePoint}
use ha_artnet_led.Sacn.Packet.{
  SacnPacket, SacnOptions, options_byte, options_of_byte, padded_name, clear_start_code,
}

-- A packet that `__post_init__` accepts, with at least the start code, over bytes and code points.
pub record IsValid (p : SacnPacket) : Type 0 where
  pub name_some : 1 ≤ length p.source_name
  pub name_short : length p.source_name ≤ 63
  pub name_text : All IsCodePoint p.source_name
  pub priority_low : p.priority ≤ 200
  pub universe_pos : 1 ≤ p.universe
  pub universe_low : p.universe ≤ 63999
  pub sequence_low : p.sequence_number ≤ 255
  pub cid_length : length p.cid ≡ 16
  pub data_some : 1 ≤ length p.dmx_data
  pub data_short : length p.dmx_data ≤ 513

-- The two bytes of a number in network order.
abbrev pub two : ℕ → Bytes
two v = v / 256 ∷ v % 256 ∷ []

pub pack_b-eq : (v : ℕ) → v < 256 → pack_b v ≡ ok (v ∷ [])
unfolding pack_b
pack_b-eq v h = ground arith

pub pack_h-eq : (v : ℕ) → v < 65536 → pack_h v ≡ ok (two v)
unfolding pack_h
pack_h-eq v h = ground arith

pub unpack_h-two : (v : ℕ) → unpack_h (two v) ≡ ok v
unfolding unpack_h
unpack_h-two v = ap ok (omega arith)

-- The flags 0x7 above twelve bits of length.
pub flags_length : (n : ℕ) → n < 1024 → bit_or 0x7000 n ≡ 0x7000 + n
unfolding bytes_below
flags_length n h =
    (==_iff _ _).0 (bytes_below_sound 1024 (λ k. bit_or 0x7000 k == 0x7000 + k) n refl h)

pub pack_flags : (n : ℕ) → n < 1024 → pack_h (bit_or 0x7000 n) ≡ ok (two (0x7000 + n))
pack_flags n h = rw (flags_length n h) (pack_h-eq (0x7000 + n) (omega arith))

-- The three options survive the byte, which has no other bit.
pub options_of_byte-options_byte : (o : SacnOptions) → options_of_byte (options_byte o) ≡ o
unfolding options_byte options_of_byte
options_of_byte-options_byte o = by_bits o.preview_data o.stream_terminated o.force_synchronization
  where
    by_bits :
        (a b c : Bool)
        → let o : SacnOptions = record {
          preview_data = a;
          stream_terminated = b;
          force_synchronization = c;
        } in
          options_of_byte (options_byte o) ≡ o
    by_bits true true true = refl
    by_bits true true false = refl
    by_bits true false true = refl
    by_bits true false false = refl
    by_bits false true true = refl
    by_bits false true false = refl
    by_bits false false true = refl
    by_bits false false false = refl

pub options_byte-lt : (o : SacnOptions) → options_byte o < 256
unfolding options_byte
options_byte-lt o = by_bits o.preview_data o.stream_terminated o.force_synchronization
  where
    by_bits :
        (a b c : Bool)
        → options_byte
            (record { preview_data = a; stream_terminated = b; force_synchronization = c })
          < 256
    by_bits true true true = omega arith
    by_bits true true false = omega arith
    by_bits true false true = omega arith
    by_bits true false false = omega arith
    by_bits false true true = omega arith
    by_bits false true false = omega arith
    by_bits false false true = omega arith
    by_bits false false false = omega arith

pub length-padded_name : (e : Bytes) → length (padded_name e) ≡ 64
unfolding padded_name
length-padded_name e = omega (
  arith,
  length-append (take 63 e) (replicate (64 - length (take 63 e)) 0),
  length-replicate (64 - length (take 63 e)) (the_nul),
  length-take 63 e,
)
  where
    the_nul : ℕ
    the_nul = 0

pub rstrip_nul-padded_name : (e : Bytes) → length e ≤ 63 → rstrip_nul (padded_name e) ≡ rstrip_nul e
unfolding padded_name
rstrip_nul-padded_name e h = rw (take_all 63 e h) (rstrip_nul-append_nuls e _)

pub length-clear_start_code : (d : Bytes) → length (clear_start_code d) ≡ length d
length-clear_start_code [] = refl
length-clear_start_code (x ∷ xs) = refl

-- A slice that begins `k` bytes behind a known place.
pub slice_after :
    (i k n : ℕ) (w rest : Bytes) → drop i w ≡ rest → slice (i + k) n w ≡ slice k n rest
unfolding slice
slice_after i k n w rest e = rw (drop-add i k w, e)
