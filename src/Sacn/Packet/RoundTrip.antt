-- ===== src/Sacn/Packet/RoundTrip.antt =====
-- `serialize` on valid packets, and `deserialize` on what it writes.
use ha_artnet_led.Base.{
  ℕ, ◌+◌, ◌/◌, ◌%◌, ◌≤◌, ◌≡◌, refl, ap, ◌∙◌, ◌∷◌, ◌++◌, length, drop, length-append, take_all,
  drop-add, drop-append_eq, take-append_eq, arith, ltb, false,
}
use ha_artnet_led.Base.Result.{ok}
use ha_artnet_led.Base.Bytes.{
  Bytes, slice, pack_h, pack_i, pack_b, unpack_h, unpack_i, unpack_b, rstrip_nul,
}
use ha_artnet_led.Base.Text.{utf8_encode, utf8_decode}
use ha_artnet_led.Base.Text.RoundTrip.{
  utf8_decode-encode, rstrip_nul-utf8_encode, IsCodePoint, All-rstrip_nul,
}
use ha_artnet_led.Sacn.Packet.{
  SacnPacket, serialize, deserialize, post_init, padded_name, clear_start_code, options_byte,
}
use ha_artnet_led.Sacn.Packet.Fields.{
  IsValid, pack_b-eq, pack_h-eq, pack_flags, unpack_h-two, options_of_byte-options_byte,
  options_byte-lt, length-padded_name, rstrip_nul-padded_name, length-clear_start_code, slice_after,
}

-- The bytes of a packet whose source name is encoded as `e`, in three parts: up to the CID, from
-- there up to the source name, and what follows the name.
abbrev pub name_tail : SacnPacket → Bytes
name_tail p =
    let n = length p.dmx_data in
    p.priority
    ∷ 0
    ∷ 0
    ∷ p.sequence_number
    ∷ options_byte p.options
    ∷ p.universe / 256
    ∷ p.universe % 256
    ∷ (0x7000 + (10 + n)) / 256
    ∷ (0x7000 + (10 + n)) % 256
    ∷ 0x02
    ∷ 0xA1
    ∷ 0
    ∷ 0
    ∷ 0
    ∷ 1
    ∷ n / 256
    ∷ n % 256
    ∷ clear_start_code p.dmx_data

abbrev pub cid_tail : SacnPacket → Bytes → Bytes
cid_tail p e =
    let n = length p.dmx_data in
    (0x7000 + (77 + (10 + n))) / 256
    ∷ (0x7000 + (77 + (10 + n))) % 256
    ∷ 0
    ∷ 0
    ∷ 0
    ∷ 2
    ∷ (padded_name e ++ name_tail p)

abbrev pub wire : SacnPacket → Bytes → Bytes
wire p e =
    let n = length p.dmx_data in
    0
    ∷ 0x10
    ∷ 0
    ∷ 0
    ∷ 0x41
    ∷ 0x53
    ∷ 0x43
    ∷ 0x2d
    ∷ 0x45
    ∷ 0x31
    ∷ 0x2e
    ∷ 0x31
    ∷ 0x37
    ∷ 0
    ∷ 0
    ∷ 0
    ∷ (0x7000 + (22 + (77 + (10 + n)))) / 256
    ∷ (0x7000 + (22 + (77 + (10 + n)))) % 256
    ∷ 0
    ∷ 0
    ∷ 0
    ∷ 4
    ∷ (p.cid ++ cid_tail p e)

-- A valid packet is written without an exception, as `wire` says.
pub serialize-wire :
    (p : SacnPacket) (e : Bytes)
    → IsValid p
    → utf8_encode p.source_name ≡ ok e
    → serialize p ≡ ok (wire p e)
unfolding serialize
serialize-wire p e v h =
    rw
      (
        length-clear_start_code p.dmx_data,
        pack_flags (22 + (77 + (10 + length p.dmx_data))) (omega arith),
        pack_flags (77 + (10 + length p.dmx_data)) (omega arith),
        pack_flags (10 + length p.dmx_data) (omega arith),
        h,
        pack_b-eq p.priority (omega arith),
        pack_b-eq p.sequence_number (omega arith),
        pack_b-eq (options_byte p.options) (options_byte-lt p.options),
        pack_h-eq p.universe (omega arith),
        pack_h-eq (length p.dmx_data) (omega arith),
      )
      (unfold pack_h pack_i pack_b in refl)

module _ (p : SacnPacket) (e : Bytes) (v : IsValid p) where
  drop-cid_tail : drop 38 (wire p e) ≡ cid_tail p e
  drop-cid_tail = drop-append_eq 16 p.cid (cid_tail p e) v.cid_length

  drop-name_tail : drop 108 (wire p e) ≡ name_tail p
  drop-name_tail =
      drop-add 38 70 (wire p e)
      ∙ ap (drop 70) drop-cid_tail
      ∙ drop-append_eq 64 (padded_name e) (name_tail p) (length-padded_name e)

  slice_cid : slice 22 16 (wire p e) ≡ p.cid
  unfolding slice
  slice_cid = take-append_eq 16 p.cid (cid_tail p e) v.cid_length

  slice_name : slice 44 64 (wire p e) ≡ padded_name e
  slice_name =
      slice_after 38 6 64 (wire p e) (cid_tail p e) drop-cid_tail
      ∙ unfold slice in take-append_eq 64 (padded_name e) (name_tail p) (length-padded_name e)

  -- The fields at the given distance from the CID's end, and from the source name's end.
  pub behind_cid : (k n : ℕ) → slice (38 + k) n (wire p e) ≡ slice k n (cid_tail p e)
  behind_cid k n = slice_after 38 k n (wire p e) (cid_tail p e) drop-cid_tail

  pub behind_name : (k n : ℕ) → slice (108 + k) n (wire p e) ≡ slice k n (name_tail p)
  behind_name k n = slice_after 108 k n (wire p e) (name_tail p) drop-name_tail

  slice_data : slice 125 (length p.dmx_data) (wire p e) ≡ clear_start_code p.dmx_data
  slice_data =
      behind_name 17 (length p.dmx_data)
      ∙ unfold slice in
        take_all (length p.dmx_data) (clear_start_code p.dmx_data)
          (omega (arith, length-clear_start_code p.dmx_data))

  pub length-wire : length (wire p e) ≡ 125 + length p.dmx_data
  length-wire = omega (
    arith,
    length-append p.cid (cid_tail p e),
    length-append (padded_name e) (name_tail p),
    length-padded_name e,
    length-clear_start_code p.dmx_data,
    v.cid_length,
  )

  long_enough : ltb (length (wire p e)) 126 ≡ false
  long_enough = ground (arith, length-wire)

  field_universe : unpack_h (slice 113 2 (wire p e)) ≡ ok p.universe
  field_universe = rw (behind_name 5 2) (unfold slice in unpack_h-two p.universe)

  field_count : unpack_h (slice 123 2 (wire p e)) ≡ ok (length p.dmx_data)
  field_count = rw (behind_name 15 2) (unfold slice in unpack_h-two (length p.dmx_data))

  field_name :
      length e ≤ 63
      → utf8_encode p.source_name ≡ ok e
      → utf8_decode (rstrip_nul (slice 44 64 (wire p e))) ≡ ok (rstrip_nul p.source_name)
  field_name short enc =
      rw (slice_name, rstrip_nul-padded_name e short)
        (utf8_decode-encode (rstrip_nul p.source_name) (rstrip_nul e)
          (All-rstrip_nul IsCodePoint p.source_name v.name_text)
          (rstrip_nul-utf8_encode p.source_name e enc))

  -- `deserialize` reads back every field that `serialize` wrote. What it hands to the constructor
  -- has the source name without trailing NULs and the start code 0.
  pub deserialize-wire :
      length e ≤ 63
      → utf8_encode p.source_name ≡ ok e
      → deserialize (wire p e)
        ≡ post_init (record p {
          source_name = rstrip_nul p.source_name;
          dmx_data = clear_start_code p.dmx_data;
        })
  unfolding deserialize
  deserialize-wire short enc =
      rw
        (
          long_enough,
          slice_cid,
          behind_cid 0 2,
          behind_cid 2 4,
          field_name short enc,
          behind_name 0 1,
          behind_name 1 2,
          behind_name 3 1,
          behind_name 4 1,
          field_universe,
          behind_name 7 2,
          behind_name 9 1,
          behind_name 10 1,
          behind_name 11 2,
          behind_name 13 2,
          field_count,
          slice_data,
        )
        (unfold slice unpack_h unpack_i unpack_b in rw (options_of_byte-options_byte p.options))

-- Serializing a valid packet whose source name takes at most 63 bytes succeeds, and deserializing
-- the bytes gives what the constructor makes of the same fields, with the source name stripped of
-- trailing NULs and the start code set to 0.
pub deserialize-serialize :
    (p : SacnPacket) (e : Bytes)
    → IsValid p
    → utf8_encode p.source_name ≡ ok e
    → length e ≤ 63
    → (b : Bytes) × (serialize p ≡ ok b)
      × (deserialize b
          ≡ post_init (record p {
            source_name = rstrip_nul p.source_name;
            dmx_data = clear_start_code p.dmx_data;
          }))
deserialize-serialize p e v enc short =
    (wire p e, serialize-wire p e v enc, deserialize-wire p e v short enc)
