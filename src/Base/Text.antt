-- ===== src/Base/Text.antt =====
-- Python's `str` as a list of code points, and its UTF-8 codec.
pub mod RoundTrip
pub mod Errors
pub mod Format
use Prim.Native.Nat.{ℕ, zero, suc, ◌+◌, ◌-◌, ◌*◌, ◌/◌, ◌%◌, ◌≤◌, ◌<◌}
use mathlib.Core.Path.{◌≡◌, refl, ap, ◌∙◌}
use mathlib.Core.Logic.{◌⊎◌, inl, inr}
use mathlib.Core.Bool.{Bool, true, false, ◌&&◌}
use mathlib.Core.List.{List, [], ◌∷◌, ◌++◌, append_assoc}
use native.Mathlib.Omega.{arith}
use ha_artnet_led.Base.Tests.{ltb, leb, ◌==◌, if◌then◌else◌}
use ha_artnet_led.Base.Lists.{All, length, length-append}
use ha_artnet_led.Base.Bytes.{Bytes, IsByte, rstrip_nul}
use ha_artnet_led.Base.Result.{Result, ok, err, Exc, ◌>>=◌}

abbrev pub Text : Type 0
Text = List ℕ

-- A code point that UTF-8 can encode: no surrogate.
abbrev pub IsScalar : ℕ → Type 0
IsScalar c = (c < 0xD800) ⊎ ((0xE000 ≤ c) × (c < 0x110000))

-- The bytes of one code point.
unfoldable pub utf8_char : ℕ → Result Bytes
utf8_char c =
    if ltb c 0x80
    then ok (c ∷ [])
    else (if ltb c 0x800
        then ok ((0xC0 + c / 64) ∷ (0x80 + c % 64) ∷ [])
        else (if leb 0xD800 c && ltb c 0xE000
            then err Exc.unicode_error
            else (if ltb c 0x10000
                then ok ((0xE0 + c / 4096) ∷ (0x80 + c / 64 % 64) ∷ (0x80 + c % 64) ∷ [])
                else ok (
                    (0xF0 + c / 262144)
                    ∷ (0x80 + c / 4096 % 64)
                    ∷ (0x80 + c / 64 % 64)
                    ∷ (0x80 + c % 64)
                    ∷ []))))

-- `text.encode("utf-8")`
unfoldable pub utf8_encode : Text → Result Bytes
unfolding utf8_char
utf8_encode [] = ok []
utf8_encode (c ∷ cs) = do b ← utf8_char c; bs ← utf8_encode cs; ok (b ++ bs)

-- What `bytes.decode` waits for: continuation bytes still due, the value so far, and the bounds of
-- the next byte, which rule out overlong forms, surrogates and values above 0x10FFFF.
pub record Pending : Type 0 where
  pub due : ℕ
  pub value : ℕ
  pub low : ℕ
  pub high : ℕ

abbrev pub no_pending : Pending
no_pending = record { due = 0; value = 0; low = 0x80; high = 0xBF }

pub data Event : Type 0 where
  emit : ℕ → Event
  wait : Pending → Event
  bad : Event

abbrev lead : ℕ → Event
lead b =
    if ltb b 0x80
    then emit b
    else (if ltb b 0xC2
        then bad
        else (if ltb b 0xE0
            then wait (record { due = 1; value = b - 0xC0; low = 0x80; high = 0xBF })
            else (if b == 0xE0
                then wait (record { due = 2; value = 0; low = 0xA0; high = 0xBF })
                else (if b == 0xED
                    then wait (record { due = 2; value = 13; low = 0x80; high = 0x9F })
                    else (if ltb b 0xF0
                        then wait (record { due = 2; value = b - 0xE0; low = 0x80; high = 0xBF })
                        else (if b == 0xF0
                            then wait (record { due = 3; value = 0; low = 0x90; high = 0xBF })
                            else (if ltb b 0xF4
                                then wait
                                    (record { due = 3; value = b - 0xF0; low = 0x80; high = 0xBF })
                                else (if b == 0xF4
                                    then wait
                                        (record { due = 3; value = 4; low = 0x80; high = 0x8F })
                                    else bad))))))))

abbrev continuation : ℕ → Pending → ℕ → Event
continuation k p b =
    if leb p.low b && leb b p.high
    then (if k == 0
        then emit (p.value * 64 + (b - 0x80))
        else wait (record { due = k; value = p.value * 64 + (b - 0x80); low = 0x80; high = 0xBF }))
    else bad

abbrev next : Pending → ℕ → Event
next p b = if p.due == 0 then lead b else continuation (p.due - 1) p b

-- `raw.decode("utf-8")`
unfoldable pub utf8_loop : Bytes → Pending → Result Text
utf8_loop [] p = if p.due == 0 then ok [] else err Exc.unicode_error
utf8_loop (b ∷ bs) p = elim (next p b) [
  | emit c ↦ (do cs ← utf8_loop bs no_pending; ok (c ∷ cs))
  | wait q ↦ utf8_loop bs q
  | bad ↦ err Exc.unicode_error
]

unfoldable pub utf8_decode : Bytes → Result Text
unfolding utf8_loop
utf8_decode bs = utf8_loop bs no_pending
