-- ===== src/ArtNet/Codec/Laws.antt =====
-- What is appended is consumed again.
use ha_artnet_led.Base.{
  ℕ, ◌+◌, ◌*◌, ◌/◌, ◌%◌, ◌<◌, ◌≤◌, ◌≡◌, refl, ap, ◌∙◌, true, [], ◌∷◌, ◌++◌, some, length, get_elem?,
  ◌==◌, bit_or, arith, bit_or_sum,
}
use ha_artnet_led.Base.Result.{ok}
use ha_artnet_led.Base.Bytes.{Bytes, slice}
use ha_artnet_led.ArtNet.Address.Laws.{low_8}
use ha_artnet_led.ArtNet.Codec.{
  append, append_int_lsb, append_int_msb, decode_str, pop, take_bytes, consume_int_lsb,
  consume_int_msb, deserialize_base, serialize_base, next, Reader, ◌>>=◌,
}

pub append-eq : (v : ℕ) → v < 256 → append v ≡ ok (v ∷ [])
unfolding append
append-eq v h = ground arith

pub append_int_lsb-eq : (n : ℕ) → append_int_lsb n ≡ n % 256 ∷ n / 256 % 256 ∷ []
unfolding append_int_lsb
append_int_lsb-eq n = rw (low_8 n, low_8 (n / 256))

pub append_int_msb-eq : (n : ℕ) → append_int_msb n ≡ n / 256 % 256 ∷ n % 256 ∷ []
unfolding append_int_msb
append_int_msb-eq n = rw (low_8 n, low_8 (n / 256))

-- Two bytes as a word.
pub word_sum : (m l : ℕ) → l < 256 → bit_or (m * 256) l ≡ m * 256 + l
word_sum m l h = bit_or_sum 8 m l h

module _ {S : Type 0} (packet : Bytes) (s : S) (i : ℕ) where
  pub pop_at : (b : ℕ) → get_elem? packet i ≡ some b → pop packet s i ≡ next b s (i + 1)
  unfolding pop
  pop_at b h = rw (h, pop)

  pub msb_at :
      (m l : ℕ)
      → i + 2 ≤ length packet
      → slice i 2 packet ≡ m ∷ l ∷ []
      → l < 256
      → consume_int_msb packet s i ≡ next (m * 256 + l) s (i + 2)
  unfolding consume_int_msb
  msb_at m l long h hl = rw (h, word_sum m l hl) (ground arith)

  pub lsb_at :
      (l m : ℕ)
      → i + 2 ≤ length packet
      → slice i 2 packet ≡ l ∷ m ∷ []
      → l < 256
      → consume_int_lsb packet s i ≡ next (m * 256 + l) s (i + 2)
  unfolding consume_int_lsb
  lsb_at l m long h hl = rw (h, word_sum m l hl) (ground arith)

  -- A number of two bytes, as `append_int_msb` and `append_int_lsb` write it.
  pub msb_word :
      (v : ℕ)
      → v < 65536
      → i + 2 ≤ length packet
      → slice i 2 packet ≡ v / 256 % 256 ∷ v % 256 ∷ []
      → consume_int_msb packet s i ≡ next v s (i + 2)
  msb_word v hv long h =
      msb_at (v / 256 % 256) (v % 256) long h (omega arith)
      ∙ ap (λ (w : ℕ). next w s (i + 2)) (omega arith)

  pub lsb_word :
      (v : ℕ)
      → v < 65536
      → i + 2 ≤ length packet
      → slice i 2 packet ≡ v % 256 ∷ v / 256 % 256 ∷ []
      → consume_int_lsb packet s i ≡ next v s (i + 2)
  lsb_word v hv long h =
      lsb_at (v % 256) (v / 256 % 256) long h (omega arith)
      ∙ ap (λ (w : ℕ). next w s (i + 2)) (omega arith)

  pub take_at :
      (n : ℕ) (bs : Bytes) → slice i n packet ≡ bs → take_bytes packet n s i ≡ next bs s (i + n)
  unfolding take_bytes
  take_at n bs h = rw h

-- The ten bytes of the header, for an opcode of two bytes.
abbrev pub header_bytes : ℕ → Bytes
header_bytes opcode =
    0x41 ∷ 0x72 ∷ 0x74 ∷ 0x2d ∷ 0x4e ∷ 0x65 ∷ 0x74 ∷ 0 ∷ opcode % 256 ∷ opcode / 256 % 256 ∷ []

pub serialize_base-eq : (opcode : ℕ) → serialize_base opcode ≡ header_bytes opcode
unfolding serialize_base
serialize_base-eq opcode = rw (append_int_lsb-eq opcode)

-- A packet that begins with the header of its opcode is accepted, and the index is then 10.
pub deserialize_base_header :
    {S : Type 0} (opcode : ℕ) (rest : Bytes) (s : S) (i : ℕ)
    → opcode < 65536
    → deserialize_base (header_bytes opcode ++ rest) opcode s i ≡ next tt s 10
unfolding deserialize_base decode_str slice
deserialize_base_header opcode rest s i h =
    let e : opcode / 256 % 256 * 256 + opcode % 256 ≡ opcode = omega arith in
    let t : (opcode == opcode) ≡ true = ground arith in
    rw (
      lsb_at (header_bytes opcode ++ rest) s 8 (opcode % 256) (opcode / 256 % 256) (omega arith)
          refl (omega arith),
      ◌>>=◌,
      e,
      t,
    )

-- One call of a `deserialize` method that returned.
pub after :
    {S A B : Type 0} (m : Reader S A) (f : A → Reader S B) {s s' : S} {i j : ℕ} {a : A}
    → m s i ≡ next a s' j
    → (m >>= f) s i ≡ f a s' j
after m f h = rw (h, ◌>>=◌)
