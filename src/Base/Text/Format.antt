-- ===== src/Base/Text/Format.antt =====
-- Text literals as code points, and the f-strings' numbers.
use Prim.Native.Nat.{ℕ, zero, suc, ◌+◌, ◌-◌, ◌/◌, ◌%◌}
use Prim.Native.Char.{code}
use Prim.Native.String.{String}
use mathlib.Core.List.{[], ◌∷◌, ◌++◌}
use ha_artnet_led.Base.Tests.{ltb, if◌then◌else◌}
use ha_artnet_led.Base.Lists.{length, replicate}
use ha_artnet_led.Base.Text.{Text}

abbrev pub codes : String → Text
codes String.[] = []
codes (String.◌∷◌ c s) = code c ∷ codes s

-- `str(n)`, in front of a text; a number has no more digits than one more than its value.
abbrev pub decimal_text : ℕ → ℕ → Text → Text
decimal_text zero n acc = (48 + n) ∷ acc
decimal_text (suc fuel) n acc =
    let more = decimal_text fuel (n / 10) ((48 + n % 10) ∷ acc) in
    if ltb n 10 then (48 + n) ∷ acc else more

unfoldable pub decimal : ℕ → Text
decimal n = decimal_text n n []

-- `text.zfill(width)` of digits.
unfoldable pub zfill : ℕ → Text → Text
zfill width text = replicate (width - length text) 48 ++ text
