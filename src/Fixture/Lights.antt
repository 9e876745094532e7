-- ===== src/Fixture/Lights.antt =====
-- The light entities that custom_components/dmx/fixture/delegator.py makes of a fixture's channels, with
-- `ChannelType` and `ChannelMapping` of custom_components/dmx/entity/light/__init__.py.
use ha_artnet_led.Base.{
  ℕ, zero, suc, Bool, true, false, not, ◌&&◌, ◌||◌, ◌≡◌, ◌↔◌, refl, sym, ap, ◌∙◌, List, [], ◌∷◌,
  ◌++◌, Option, some, none, ◌==◌, ==_iff, max, min, if◌then◌else◌,
}
use ha_artnet_led.Base.Dict.{Dict, Eq, nat_eq, lookup, insert, erase, contains}

pub data ChannelType : Type 0 where
  red green blue cold_white warm_white color_temperature dimmer : ChannelType

abbrev pub number_of : ChannelType → ℕ
number_of dimmer = 0
number_of red = 1
number_of green = 2
number_of blue = 3
number_of cold_white = 4
number_of warm_white = 5
number_of color_temperature = 6

abbrev type_of : ℕ → ChannelType
type_of zero = dimmer
type_of (suc zero) = red
type_of (suc (suc zero)) = green
type_of (suc (suc (suc zero))) = blue
type_of (suc (suc (suc (suc zero)))) = cold_white
type_of (suc (suc (suc (suc (suc zero))))) = warm_white
type_of (suc (suc (suc (suc (suc (suc n)))))) = color_temperature

type_of-number_of : (t : ChannelType) → type_of (number_of t) ≡ t
type_of-number_of dimmer = refl
type_of-number_of red = refl
type_of-number_of green = refl
type_of-number_of blue = refl
type_of-number_of cold_white = refl
type_of-number_of warm_white = refl
type_of-number_of color_temperature = refl

unfoldable pub type_beq : ChannelType → ChannelType → Bool
type_beq t u = number_of t == number_of u

pub type_beq_iff : (t u : ChannelType) → (type_beq t u ≡ true) ↔ (t ≡ u)
unfolding type_beq
type_beq_iff t u = (
  (λ h.
      sym (type_of-number_of t)
      ∙ ap type_of ((==_iff (number_of t) (number_of u)).0 h)
      ∙ type_of-number_of u),
  (λ h. (==_iff (number_of t) (number_of u)).1 (ap number_of h)),
)

instance abbrev pub type_eq : Eq ChannelType
type_eq = record { beq = type_beq; beq_iff = type_beq_iff }

-- What the code reads of a channel's capability: the colour of an intensity, the two temperatures of a
-- colour temperature with whether they are in Kelvin, or the class alone.
pub data SingleColor : Type 0 where
  single_red single_green single_blue single_cold_white single_warm_white single_white : SingleColor
  single_other : SingleColor

pub data LightCapability : Type 0 where
  color_intensity : SingleColor → LightCapability
  intensity : LightCapability
  temperature : Option ((Bool × ℕ) × (Bool × ℕ)) → LightCapability
  other : LightCapability

pub record ChannelMapping : Type 0 where
  pub dmx_indexes : List ℕ
  pub capability : LightCapability
  pub channel_type : ChannelType
  pub has_correction : Bool

-- The type of a channel with one dynamic capability, of `__accumulate_light_entities`.
abbrev pub color_type : SingleColor → Option ChannelType
color_type single_red = some red
color_type single_green = some green
color_type single_blue = some blue
color_type single_cold_white = some cold_white
color_type single_warm_white = some warm_white
color_type single_white = some warm_white
color_type single_other = none

abbrev pub light_channel : LightCapability → Option ChannelType
light_channel (color_intensity color) = color_type color
light_channel intensity = some dimmer
light_channel (temperature temperatures) = some color_temperature
light_channel other = none

abbrev pub or_new : Option (List ChannelMapping) → List ChannelMapping
or_new none = []
or_new (some mappings) = mappings

abbrev pub mapping_of : List ℕ → LightCapability → Bool → ChannelType → ChannelMapping
mapping_of dmx_indexes capability has_correction t = record {
  dmx_indexes = dmx_indexes;
  capability = capability;
  channel_type = t;
  has_correction = if type_beq t color_temperature then false else has_correction;
}

abbrev pub accumulate_type :
    {K : Type 0} ⦃e : Eq K⦄
    → K
    → List ℕ
    → LightCapability
    → Bool
    → Dict K (List ChannelMapping)
    → Option ChannelType
    → Dict K (List ChannelMapping)
accumulate_type matrix_key indexes capability has_correction accumulator none = accumulator
accumulate_type matrix_key indexes capability has_correction accumulator (some t) =
    insert matrix_key
      (or_new (lookup matrix_key accumulator)
        ++ (mapping_of indexes capability has_correction t ∷ []))
      accumulator

-- `__accumulate_light_entities`
unfoldable pub accumulate_light_entities :
    {K : Type 0} ⦃e : Eq K⦄
    → K
    → List ℕ
    → LightCapability
    → Bool
    → Bool
    → Dict K (List ChannelMapping)
    → Dict K (List ChannelMapping)
unfolding type_beq
accumulate_light_entities matrix_key indexes capability is_dynamic has_correction accumulator =
    if is_dynamic
    then accumulate_type matrix_key indexes capability has_correction accumulator
        (light_channel capability)
    else accumulator

-- `_color_temperature_bounds`
abbrev pub in_kelvin : Bool × ℕ → ℕ → ℕ
in_kelvin (true, value) d = value
in_kelvin (false, value) d = d

abbrev pub bounds_of : LightCapability → ℕ × ℕ
bounds_of (temperature (some (first, last))) =
    let low = in_kelvin first 2000 in let high = in_kelvin last 6500 in (min low high, max low high)
bounds_of _ = (2000, 6500)

unfoldable pub color_temperature_bounds : ChannelMapping → ℕ × ℕ
color_temperature_bounds mapping = bounds_of mapping.capability

-- `channel_map`: later channels win, but for colour temperatures.
abbrev pub ChannelMap : Type 0
ChannelMap = Dict ChannelType ChannelMapping

unfoldable pub map_channels : List ChannelMapping → ChannelMap → ChannelMap
unfolding type_beq
map_channels [] channels = channels
map_channels (m ∷ ms) channels = map_channels ms (
    if type_beq m.channel_type color_temperature && contains color_temperature channels
    then channels
    else insert m.channel_type m channels)

-- A lone cold white is a warm white.
abbrev pub rename_cold : Option ChannelMapping → ChannelMap → ChannelMap
rename_cold none channels = channels
rename_cold (some m) channels =
    if contains warm_white channels
    then channels
    else insert warm_white (record m { channel_type = warm_white }) (erase cold_white channels)

unfoldable pub channel_map : List ChannelMapping → ChannelMap
unfolding map_channels
channel_map accumulated =
    let channels = map_channels accumulated [] in rename_cold (lookup cold_white channels) channels

pub data ColorMode : Type 0 where
  rgb rgbw rgbww color_temp brightness : ColorMode

-- The decision of `__build_light_entities`: the mode, the modes that are supported beside it, and the
-- types of the channels in the order in which they are appended.
pub record Plan : Type 0 where
  pub color_mode : ColorMode
  pub supported_color_modes : Option (List ColorMode)
  pub types : List ChannelType

abbrev pub when : Bool → ChannelType → List ChannelType
when true t = t ∷ []
when false t = []

abbrev pub plan_rgb : Bool → Bool → Bool → Bool → Plan
plan_rgb has_dimmer has_cold_warm has_color_temp has_single_white =
    let start = when has_dimmer dimmer ++ (red ∷ green ∷ blue ∷ []) in
    if has_cold_warm
    then record {
      color_mode = rgbww;
      supported_color_modes = none;
      types = start ++ (cold_white ∷ warm_white ∷ when has_color_temp color_temperature);
    }
    else (if has_color_temp && (has_single_white || has_dimmer)
        then record {
          color_mode = color_temp;
          supported_color_modes = some (color_temp ∷ (if has_single_white then rgbw else rgb) ∷ []);
          types = start ++ (when has_single_white warm_white ++ (color_temperature ∷ []));
        }
        else (if has_single_white
            then record {
              color_mode = rgbw;
              supported_color_modes = none;
              types = start ++ (warm_white ∷ []);
            }
            else record { color_mode = rgb; supported_color_modes = none; types = start }))

unfoldable pub plan_light : Bool → Bool → Bool → Bool → Bool → Option Plan
plan_light has_rgb has_cold has_warm has_color_temp has_dimmer =
    let has_cold_warm = has_cold && has_warm in
    let has_single_white = has_warm && not has_cold_warm in
    if has_rgb
    then some (plan_rgb has_dimmer has_cold_warm has_color_temp has_single_white)
    else (if has_cold_warm || has_color_temp
        then some (record {
          color_mode = color_temp;
          supported_color_modes = none;
          types =
              when has_dimmer dimmer
              ++ (when has_cold cold_white
                  ++ (when has_warm warm_white ++ when has_color_temp color_temperature));
        })
        else (if has_single_white || has_dimmer
            then some (record {
              color_mode = brightness;
              supported_color_modes = none;
              types = when has_dimmer dimmer ++ when has_single_white warm_white;
            })
            else none))

pub record LightEntity : Type 0 where
  pub color_mode : ColorMode
  pub supported_color_modes : Option (List ColorMode)
  pub channels : List ChannelMapping
  pub has_separate_dimmer : Bool
  pub min_kelvin : ℕ
  pub max_kelvin : ℕ

-- `channel_map[t]` for the types of the plan, which are in the map.
abbrev pub found : Option ChannelMapping → List ChannelMapping → List ChannelMapping
found none ms = ms
found (some m) ms = m ∷ ms

unfoldable pub channels_at : List ChannelType → ChannelMap → List ChannelMapping
channels_at [] channels = []
channels_at (t ∷ ts) channels = found (lookup t channels) (channels_at ts channels)

-- The bounds are those of the colour temperature channel where it is among the types.
abbrev pub has_type : ChannelType → List ChannelType → Bool
has_type t [] = false
has_type t (u ∷ us) = type_beq t u || has_type t us

abbrev pub bounds_at : Bool → Option ChannelMapping → ℕ × ℕ
bounds_at true (some m) = color_temperature_bounds m
bounds_at _ _ = (2000, 6500)

abbrev pub light_of : ChannelMap → Plan → LightEntity
light_of channels plan =
    let bounds =
      bounds_at (has_type color_temperature plan.types) (lookup color_temperature channels) in
    record {
      color_mode = plan.color_mode;
      supported_color_modes = plan.supported_color_modes;
      channels = channels_at plan.types channels;
      has_separate_dimmer = contains dimmer channels;
      min_kelvin = bounds.0;
      max_kelvin = bounds.1;
    }

abbrev pub plan_for : ChannelMap → Option Plan
plan_for channels =
    plan_light (contains red channels && (contains green channels && contains blue channels))
      (contains cold_white channels) (contains warm_white channels)
      (contains color_temperature channels) (contains dimmer channels)

abbrev pub make_light : ChannelMap → Option Plan → Option LightEntity
make_light channels none = none
make_light channels (some plan) = some (light_of channels plan)

-- One round of the loop of `__build_light_entities`, for the channels of one matrix key.
unfoldable pub build_light_entity : List ChannelMapping → Option LightEntity
unfolding channel_map plan_light channels_at color_temperature_bounds type_beq
build_light_entity accumulated =
    let channels = channel_map accumulated in make_light channels (plan_for channels)
