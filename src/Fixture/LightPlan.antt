-- ===== src/Fixture/LightPlan.antt =====
-- Which channel types the plan of a light has (custom_components/dmx/fixture/delegator.py).
use ha_artnet_led.Base.{
  ◌≡◌, Bool, true, false, not, ◌&&◌, List, [], ◌∷◌, Option, some, none, ltb, arith,
}
use ha_artnet_led.Base.Dict.{nat_eq, contains}
use ha_artnet_led.Fixture.Lights.{
  ChannelType, red, green, blue, cold_white, warm_white, color_temperature, dimmer, number_of,
  type_beq, type_eq, ChannelMap, Plan, plan_light, has_type, plan_for,
}

-- The order of the channel types in a light: dimmer, red, green, blue, cold, warm, temperature.
abbrev pub comes_before : ChannelType → List ChannelType → Bool
comes_before t [] = true
comes_before t (u ∷ us) = let rest = comes_before t us in ltb (number_of t) (number_of u) && rest

abbrev pub are_ordered : List ChannelType → Bool
are_ordered [] = true
are_ordered (t ∷ ts) = let rest = are_ordered ts in comes_before t ts && rest

abbrev pub types_of : Option Plan → List ChannelType
types_of none = []
types_of (some plan) = plan.types

pub plan-ordered : (a b c d e : Bool) → are_ordered (types_of (plan_light a b c d e)) ≡ true
unfolding plan_light
plan-ordered a b c d e = ground arith

-- The channels that a light does not take: a colour where one of red, green and blue is missing, and a
-- colour temperature beside red, green and blue with neither a white nor a dimmer.
abbrev pub left_out : ChannelType → Bool → Bool → Bool → Bool
left_out red has_rgb warm dim = not has_rgb
left_out green has_rgb warm dim = not has_rgb
left_out blue has_rgb warm dim = not has_rgb
left_out color_temperature has_rgb warm dim = has_rgb && (not warm && not dim)
left_out _ has_rgb warm dim = false

abbrev pub is_left_out : ChannelType → ChannelMap → Bool
is_left_out t channels =
    let has_rgb = contains red channels && (contains green channels && contains blue channels) in
    left_out t has_rgb (contains warm_white channels) (contains dimmer channels)

-- The types of the plan are those that are present and not left out.
pub plan-types :
    (t : ChannelType) (channels : ChannelMap)
    → (contains cold_white channels ≡ true → contains warm_white channels ≡ true)
    → has_type t (types_of (plan_for channels))
      ≡ (contains t channels && not (is_left_out t channels))
unfolding plan_light type_beq
plan-types red channels h = ground arith
plan-types green channels h = ground arith
plan-types blue channels h = ground arith
plan-types cold_white channels h = ground (arith, h)
plan-types warm_white channels h = ground (arith, h)
plan-types color_temperature channels h = ground (arith, h)
plan-types dimmer channels h = ground (arith, h)
