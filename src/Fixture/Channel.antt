-- ===== src/Fixture/Channel.antt =====
-- custom_components/dmx/fixture/channel.py, with the ranges of `Capability`
-- (custom_components/dmx/fixture/capability.py).
--
-- A fixture's numbers are natural numbers. A shift by whole bytes is written byte by byte.
use ha_artnet_led.Base.{
  ℕ, zero, suc, ◌+◌, ◌-◌, ◌*◌, ◌/◌, ◌%◌, Bool, ◌&&◌, List, [], ◌∷◌, ◌++◌, Option, some, none, ltb,
  leb, length, max, min, if◌then◌else◌,
}
use ha_artnet_led.Base.Result.{Result, ok, Exc, ◌>>=◌, ◌>>◌, raise_if}
use ha_artnet_led.Base.Bytes.{Bytes}
use ha_artnet_led.Base.Text.{Text}

pub data MenuClick : Type 0 where
  start center end hidden : MenuClick

-- The part of a `Capability` that places it on its channel, and the names of the channels that it
-- switches (the values of its dict).
pub record Capability : Type 0 where
  pub dmx_range_start : ℕ
  pub dmx_range_end : ℕ
  pub menu_click : Option MenuClick
  pub switch_channels : List (Option Text)

-- `menu_click_value`
abbrev pub clicked : ℕ → ℕ → MenuClick → ℕ
clicked first last start = first
clicked first last center = (first + last) / 2
clicked first last end = last
clicked first last hidden = first

unfoldable pub menu_click_value : Capability → Option ℕ
menu_click_value c = elim c.menu_click [
  | none ↦ none
  | some m ↦ some (clicked c.dmx_range_start c.dmx_range_end m)
]

-- `is_applicable`
unfoldable pub is_applicable : ℕ → Capability → Bool
is_applicable value c = leb c.dmx_range_start value && leb value c.dmx_range_end

-- `value << 8 * k` and `value >> 8 * k`
unfoldable pub shift_left : ℕ → ℕ → ℕ
shift_left zero value = value
shift_left (suc k) value = shift_left k value * 256

unfoldable pub shift_right : ℕ → ℕ → ℕ
shift_right zero value = value
shift_right (suc k) value = shift_right k (value / 256)

-- `256**n`
abbrev pub size_of : ℕ → ℕ
size_of n = shift_left n 1

-- `int.from_bytes(bytes(values), "big")`, where the bytes before gave `acc`.
unfoldable pub from_bytes : ℕ → Bytes → Result ℕ
from_bytes acc [] = ok acc
from_bytes acc (b ∷ bs) = raise_if (leb 256 b) Exc.value_error >> from_bytes (acc * 256 + b) bs

-- `value.to_bytes(n, "big")`; a value that does not fit is an OverflowError, here an error of values.
unfoldable pub big_bytes : ℕ → ℕ → Bytes
big_bytes zero value = []
big_bytes (suc n) value = big_bytes n (value / 256) ++ (value % 256 ∷ [])

unfoldable pub to_bytes : ℕ → ℕ → Result Bytes
unfolding shift_left big_bytes
to_bytes n value = raise_if (leb (size_of n) value) Exc.value_error >> ok (big_bytes n value)

-- `dmx_bytes_to_range_value`
abbrev pub scaled : ℕ → ℕ → ℕ → ℕ
scaled len range_bytes combined =
    if ltb range_bytes len
    then shift_right (len - range_bytes) combined
    else shift_left (range_bytes - len) combined

unfoldable pub dmx_bytes_to_range_value : Bytes → ℕ → Result ℕ
unfolding from_bytes shift_left shift_right
dmx_bytes_to_range_value values range_bytes =
    from_bytes 0 values >>= λ combined. ok (scaled (length values) range_bytes combined)

-- `range_value_to_dmx_bytes`
abbrev pub combined_for : ℕ → ℕ → ℕ → ℕ
combined_for value num_bytes range_bytes =
    if leb range_bytes num_bytes
    then shift_left (num_bytes - range_bytes) value
    else min (shift_right (range_bytes - num_bytes) (value + size_of (range_bytes - num_bytes) - 1))
        (size_of num_bytes - 1)

unfoldable pub range_value_to_dmx_bytes : ℕ → ℕ → ℕ → Result Bytes
unfolding to_bytes shift_left shift_right
range_value_to_dmx_bytes value num_bytes range_bytes =
    to_bytes num_bytes (combined_for value num_bytes range_bytes)

-- A value of a fixture file: a percentage, once its text is read, or a number.
pub data Setting : Type 0 where
  percent : ℕ → Setting
  integer : ℕ → Setting

-- `round(n / 100)`, which takes the even neighbour of a half.
unfoldable pub round_hundredth : ℕ → ℕ
round_hundredth n =
    if ltb (n % 100) 50
    then n / 100
    else (if ltb 50 (n % 100) then n / 100 + 1 else n / 100 + n / 100 % 2)

-- `percent_to_dmx`, for a resolution of that many bytes.
unfoldable pub percent_to_dmx : Setting → ℕ → ℕ
unfolding round_hundredth shift_left
percent_to_dmx (percent p) resolution = round_hundredth (p * (size_of resolution - 1))
percent_to_dmx (integer n) resolution = n

pub record Channel : Type 0 where
  pub name : Text
  pub fine_channel_aliases : List Text
  pub dmx_value_resolution : ℕ
  pub default_value : ℕ
  pub highlight_value : ℕ
  pub constant : Bool
  pub capabilities : List Capability
  pub range_bytes : ℕ

abbrev pub value_or_else : Option Setting → ℕ → ℕ → ℕ
value_or_else none resolution d = d
value_or_else (some (integer zero)) resolution d = d
value_or_else (some (integer (suc n))) resolution d = percent_to_dmx (integer (suc n)) resolution
value_or_else (some (percent p)) resolution d = percent_to_dmx (percent p) resolution

-- `Channel.__init__`
unfoldable pub make_channel :
    Text → List Text → ℕ → Option Setting → Option Setting → Bool → Channel
unfolding percent_to_dmx
make_channel name fine_channel_aliases resolution default_value highlight_value constant = record {
  name = name;
  fine_channel_aliases = fine_channel_aliases;
  dmx_value_resolution = resolution;
  default_value = value_or_else default_value resolution 0;
  highlight_value = value_or_else highlight_value resolution (size_of resolution - 1);
  constant = constant;
  capabilities = [];
  range_bytes = 1;
}

-- `max((c.dmx_range_end for c in capabilities), default=0)`
abbrev pub highest : List Capability → ℕ
highest [] = 0
highest (c ∷ cs) = max c.dmx_range_end (highest cs)

-- `define_capability` with a list of capabilities.
unfoldable pub define_capability : List Capability → Channel → Channel
define_capability capabilities channel = record channel {
  capabilities = capabilities;
  range_bytes =
      if ltb 0xFFFF (highest capabilities)
      then 3
      else (if ltb 0xFF (highest capabilities) then 2 else 1);
}

-- `has_multiple_capabilities`
unfoldable pub has_multiple_capabilities : Channel → Bool
has_multiple_capabilities channel = ltb 1 (length channel.capabilities)
