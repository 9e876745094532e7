-- ===== src/ArtNet/Codec.antt =====
-- `ArtBase` of custom_components/dmx/server/__init__.py: what all packets append and consume.
mod Reading
pub mod Laws
pub use Reading.*
use ha_artnet_led.Base.{
  ℕ, zero, suc, ◌+◌, ◌-◌, ◌*◌, ◌/◌, ◌%◌, ◌<◌, Bool, true, false, not, ◌&&◌, List, [], ◌∷◌, ◌++◌,
  Option, some, none, length, take, replicate, get_elem?, ltb, ◌==◌, if◌then◌else◌, bit_and, bit_or,
  bit,
}
use ha_artnet_led.Base.Result.{Result, ok, err, Exc, ◌>>=◌ as ◌>>=ʳ◌}
use ha_artnet_led.Base.Bytes.{Bytes, slice}
use ha_artnet_led.Base.Text.{Text}

-- "Art-Net", and the code points that `map(ord, "Art-Net\0")` appends.
abbrev pub art_net : Text
art_net = 0x41 ∷ 0x72 ∷ 0x74 ∷ 0x2d ∷ 0x4e ∷ 0x65 ∷ 0x74 ∷ []

-- `bytearray.append(v)` refuses what is no byte.
unfoldable pub append : ℕ → Result Bytes
append v = if ltb v 256 then ok (v ∷ []) else err Exc.value_error

-- `bytearray.extend(vs)`
unfoldable pub extend : List ℕ → Result Bytes
extend [] = ok []
extend (v ∷ vs) = if ltb v 256 then (extend vs >>=ʳ λ bs. ok (v ∷ bs)) else err Exc.value_error

-- `_append_int_lsb` and `_append_int_msb`
unfoldable pub append_int_lsb : ℕ → Bytes
append_int_lsb n = bit_and n 0xFF ∷ bit_and (n / 256) 0xFF ∷ []

unfoldable pub append_int_msb : ℕ → Bytes
append_int_msb n = bit_and (n / 256) 0xFF ∷ bit_and n 0xFF ∷ []

-- `_append_str`
unfoldable pub append_str : Text → ℕ → Result Bytes
unfolding extend
append_str text len =
    let cut = take (len - 1) text in extend (cut ++ replicate (len - length cut) 0)

-- `ArtBase.serialize`: the header that every packet begins with.
unfoldable pub serialize_base : ℕ → Bytes
unfolding append_int_lsb
serialize_base opcode = art_net ++ (0 ∷ append_int_lsb opcode)

-- `packet[index : index + 2]` as a number.
abbrev pub word_lsb : Bytes → ℕ
word_lsb (lsb ∷ msb ∷ []) = bit_or (msb * 256) lsb
word_lsb _ = 0

abbrev pub word_msb : Bytes → ℕ
word_msb (msb ∷ lsb ∷ []) = bit_or (msb * 256) lsb
word_msb _ = 0

-- Two bytes as hexadecimal digits, `int(upper + lower, 16)`.
abbrev pub from_digits : List ℕ → ℕ → ℕ
from_digits [] acc = acc
from_digits (d ∷ ds) acc = from_digits ds (acc * 16 + d)

abbrev pub hex_digits : ℕ → List ℕ
hex_digits b = b / 16 ∷ b % 16 ∷ []

abbrev pub hex_lsb : Bytes → ℕ
hex_lsb (lower ∷ upper ∷ []) = from_digits (hex_digits upper ++ hex_digits lower) 0
hex_lsb _ = 0

abbrev pub hex_msb : Bytes → ℕ
hex_msb (upper ∷ lower ∷ []) = from_digits (hex_digits upper ++ hex_digits lower) 0
hex_msb _ = 0

-- The part of the raw bytes that `([^\x00]+)` matches at the front.
abbrev pub until_nul : Bytes → Bytes
until_nul [] = []
until_nul (zero ∷ bs) = []
until_nul (suc b ∷ bs) = suc b ∷ until_nul bs

-- `re.sub(b"[^\x00-\x7f]", b"", …)`
abbrev pub only_ascii : Bytes → Text
only_ascii [] = []
only_ascii (b ∷ bs) = let rest = only_ascii bs in if ltb b 128 then b ∷ rest else rest

-- `_consume_str` without the index: up to the first NUL, or all bytes where the first is a NUL.
-- What is left is ASCII, so that decoding does not fail and the fallback is never taken.
unfoldable pub decode_str : Bytes → Text
decode_str raw = elim (until_nul raw) [ [] ↦ only_ascii raw | b ∷ bs ↦ only_ascii (b ∷ bs) ]

module _ {S : Type 0} (packet : Bytes) where
  -- `_pop`
  unfoldable pub pop : Reader S ℕ
  pop s i = elim (get_elem? packet i) [
    | some b ↦ next b s (i + 1)
    | none ↦ stop Exc.index_error s i
  ]

  -- `_take`
  unfoldable pub take_bytes : ℕ → Reader S Bytes
  take_bytes n s i = next (slice i n packet) s (i + n)

  -- `_consume_int_lsb` and `_consume_int_msb`
  unfoldable pub consume_int_lsb : Reader S ℕ
  consume_int_lsb s i =
      if ltb (length packet) (i + 2)
      then stop Exc.serialization_error s i
      else next (word_lsb (slice i 2 packet)) s (i + 2)

  unfoldable pub consume_int_msb : Reader S ℕ
  consume_int_msb s i =
      if ltb (length packet) (i + 2)
      then stop Exc.serialization_error s i
      else next (word_msb (slice i 2 packet)) s (i + 2)

  -- `_consume_hex_number_lsb` and `_consume_hex_number_msb`: the two hexadecimal digits of each byte,
  -- read as a number of four.
  unfoldable pub consume_hex_number_lsb : Reader S ℕ
  consume_hex_number_lsb s i =
      if ltb (length packet) (i + 2)
      then stop Exc.serialization_error s i
      else next (hex_lsb (slice i 2 packet)) s (i + 2)

  unfoldable pub consume_hex_number_msb : Reader S ℕ
  consume_hex_number_msb s i =
      if ltb (length packet) (i + 2)
      then stop Exc.serialization_error s i
      else next (hex_msb (slice i 2 packet)) s (i + 2)

  -- `_consume_str`
  unfoldable pub consume_str : ℕ → Reader S Text
  unfolding decode_str
  consume_str n s i = next (decode_str (slice i n packet)) s (i + n)

  -- `ArtBase.deserialize`, whose index reaches the caller only if it returns.
  read_header : ℕ → Reader S (Unit {0})
  unfolding consume_str
  read_header opcode = do
    packet_header ← consume_str 8
    raise_unless (text_eq packet_header art_net) Exc.serialization_error
    found ← consume_int_lsb
    raise_unless (found == opcode) Exc.serialization_error

  unfoldable pub deserialize_base : ℕ → Reader S (Unit {0})
  unfolding read_header
  deserialize_base opcode s i = keep_index (read_header opcode s 0) i
