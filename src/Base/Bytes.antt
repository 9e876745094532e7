-- ===== src/Base/Bytes.antt =====
-- Byte strings as lists of numbers below 256: slices, the `struct` formats that the packets use,
-- and `rstrip`.
use Prim.Native.Nat.{ℕ, zero, suc, ◌+◌, ◌*◌, ◌/◌, ◌%◌, ◌<◌}
use mathlib.Core.Path.{◌≡◌, refl, ap, ◌∙◌}
use mathlib.Core.List.{List, [], ◌∷◌, ◌++◌}
use ha_artnet_led.Base.Tests.{ltb, if◌then◌else◌}
use ha_artnet_led.Base.Lists.{
  length, take, drop, replicate, drop-add, take-append_eq, drop-append_eq,
}
use ha_artnet_led.Base.Result.{Result, ok, err, Exc}

abbrev pub Bytes : Type 0
Bytes = List ℕ

abbrev pub IsByte : ℕ → Type 0
IsByte b = b < 256

-- `xs[i : i + n]`
unfoldable pub slice : ℕ → ℕ → Bytes → Bytes
slice i n xs = take n (drop i xs)

-- `struct.pack(">B", v)`, `struct.pack(">H", v)` and `struct.pack(">I", v)` of a number v.
unfoldable pub pack_b : ℕ → Result Bytes
pack_b v = if ltb v 256 then ok (v ∷ []) else err Exc.struct_error

unfoldable pub pack_h : ℕ → Result Bytes
pack_h v = if ltb v 65536 then ok (v / 256 ∷ v % 256 ∷ []) else err Exc.struct_error

unfoldable pub pack_i : ℕ → Result Bytes
pack_i v =
    if ltb v 4294967296
    then ok (v / 16777216 ∷ v / 65536 % 256 ∷ v / 256 % 256 ∷ v % 256 ∷ [])
    else err Exc.struct_error

-- `struct.unpack(…, xs)[0]`: the buffer must have the format's length.
unfoldable pub unpack_b : Bytes → Result ℕ
unpack_b (a ∷ []) = ok a
unpack_b _ = err Exc.struct_error

unfoldable pub unpack_h : Bytes → Result ℕ
unpack_h (a ∷ b ∷ []) = ok (a * 256 + b)
unpack_h _ = err Exc.struct_error

unfoldable pub unpack_i : Bytes → Result ℕ
unpack_i (a ∷ b ∷ c ∷ d ∷ []) = ok (a * 16777216 + b * 65536 + c * 256 + d)
unpack_i _ = err Exc.struct_error

-- `xs.rstrip(b"\x00")`, and the same on code points.
abbrev pub strip_head : ℕ → List ℕ → List ℕ
strip_head zero [] = []
strip_head x xs = x ∷ xs

unfoldable pub rstrip_nul : List ℕ → List ℕ
rstrip_nul [] = []
rstrip_nul (x ∷ xs) = strip_head x (rstrip_nul xs)

pub rstrip_nul-replicate : (n : ℕ) → rstrip_nul (replicate n 0) ≡ []
unfolding rstrip_nul
rstrip_nul-replicate zero = refl
rstrip_nul-replicate (suc n) = rw (rstrip_nul-replicate n)

pub rstrip_nul-append_nuls :
    (xs : List ℕ) (n : ℕ) → rstrip_nul (xs ++ replicate n 0) ≡ rstrip_nul xs
unfolding rstrip_nul
rstrip_nul-append_nuls [] n = rstrip_nul-replicate n
rstrip_nul-append_nuls (x ∷ xs) n = ap (strip_head x) (rstrip_nul-append_nuls xs n)

-- Reading a field that stands at offset `i`, given what follows from there.
module _ (i n : ℕ) (p field rest : Bytes) (at : drop i p ≡ field ++ rest)
    (len : length field ≡ n) where
  pub slice_field : slice i n p ≡ field
  unfolding slice
  slice_field = rw at (take-append_eq n field rest len)

  pub drop_field : drop (i + n) p ≡ rest
  drop_field = drop-add i n p ∙ rw at (drop-append_eq n field rest len)
