-- ===== src/Universe/FrameLength.antt =====
-- The length of a frame of `DmxUniverse`, of custom_components/dmx/io/dmx_io.py.
use ha_artnet_led.Base.{ℕ, ◌+◌, ◌%◌, ◌≤◌, ◌≡◌, Bool, true, [], ◌∷◌, ==_iff, arith, max}
use ha_artnet_led.Base.Dict.{Dict, nat_eq, contains}
use ha_artnet_led.Universe.Send.{frame_length, max_key}

lookup-max_key : (d : Dict ℕ ℕ) (ch : ℕ) → contains ch d ≡ true → ch ≤ max_key d
lookup-max_key [] ch h = absurd (ground arith)
lookup-max_key ((j, v) ∷ d) ch h = ground (arith, lookup-max_key d ch, ==_iff ch j)

-- Every channel of the given ones that is in the dict is at most `top`.
abbrev pub IsUpTo : ℕ → Dict ℕ ℕ → Type 0
IsUpTo top [] = Unit
IsUpTo top ((j, v) ∷ d) = (j ≤ top) × IsUpTo top d

max_key_le : (top : ℕ) (d : Dict ℕ ℕ) → IsUpTo top d → max_key d ≤ top
max_key_le top [] h = omega arith
max_key_le top ((j, v) ∷ d) (a, h) = omega (arith, max_key_le top d h, a)

-- A frame of channels up to 512 has an even number of bytes, from 2 to 512, as Art-Net asks, and
-- room for every channel in the dict; a partial one has at most one byte more than the highest
-- channel, or two bytes.
pub frame_length_bounds :
    (partial : Bool) (d : Dict ℕ ℕ) (ch : ℕ)
    → IsUpTo 512 d
    → contains ch d ≡ true
    → (2 ≤ frame_length partial d)
      × (frame_length partial d ≤ 512)
      × (frame_length partial d % 2 ≡ 0)
      × (ch ≤ frame_length partial d)
      × (frame_length true d ≤ max 2 (max_key d + 1))
unfolding frame_length
frame_length_bounds partial d ch h c =
    let a = lookup-max_key d ch c in
    let b = max_key_le 512 d h in
    (
      ground (arith, a, b),
      ground (arith, a, b),
      ground (arith, a, b),
      ground (arith, a, b),
      ground (arith, a, b),
    )
