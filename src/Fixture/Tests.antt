-- ===== src/Fixture/Tests.antt =====
-- Runs of the fixture's channels, and the theorems about them at concrete inputs.
use ha_artnet_led.Base.{
  ℕ, ◌+◌, ◌-◌, ◌≤◌, ◌<◌, ◌≡◌, refl, true, false, List, [], ◌∷◌, ◌++◌, some, none, arith, inr,
  if◌then◌else◌,
}
use ha_artnet_led.Base.Result.{ok, ◌>>=◌}
use ha_artnet_led.Base.Action.{◌>>=◌ as ◌>>=ᵃ◌, current, change, calls, value_of}
use ha_artnet_led.Base.Bytes.{Bytes}
use ha_artnet_led.Base.Dict.{Dict, lookup}
use ha_artnet_led.Base.Text.{Text}
use ha_artnet_led.Base.Text.Format.{codes}
use ha_artnet_led.ArtNet.Server.{bytes_beq}
use ha_artnet_led.Fixture.Channel.{
  menu_click_value, is_applicable, Capability, Channel, center, size_of, shift_left,
  dmx_bytes_to_range_value, range_value_to_dmx_bytes, to_bytes, from_bytes,
}
use ha_artnet_led.Fixture.Range.{range_value-dmx_bytes, range_value-dmx_bytes_up}
use ha_artnet_led.Fixture.Select.{
  text_eq, DmxSelect, SelectOperation, write, disable_all, update_option_to_dmx_value,
  update_current_option, set_availability, first_applicable, write_capability, link_options,
  link_channels, apply_option, make_select, link_switching_entities, operate_all, values_changed,
  option_selected, async_select_option, update_value,
}
use ha_artnet_led.Fixture.Shown.{is_current, available_as_current}
use ha_artnet_led.Fixture.Options.{async_select_option-update_value}
use ha_artnet_led.Fixture.Group.{Slot}
use ha_artnet_led.Fixture.Lights.{
  map_channels, plan_light, channels_at, color_temperature_bounds, type_beq, color_temp, cold_white,
  color_temperature, warm_white, type_eq, ChannelMapping, temperature, LightEntity,
  build_light_entity, channel_map, mapping_of, color_intensity, single_cold_white,
}
use ha_artnet_led.Fixture.LightPlan.{is_left_out, are_ordered}
use ha_artnet_led.Fixture.LightChannels.{channel_of, channels_of, build_light_entity-channels}
use ha_artnet_led.Fixture.LightOrder.{types_in, build_light_entity-order}

range_value-dmx_bytes_example :
    (range_value_to_dmx_bytes 200 2 1 >>= λ bs. dmx_bytes_to_range_value bs 1) ≡ ok 200
unfolding shift_left
range_value-dmx_bytes_example = range_value-dmx_bytes 200 2 1 (omega arith) (omega arith)

range_value-dmx_bytes_up_example :
    (seen : ℕ) × ((range_value_to_dmx_bytes 32769 1 2 >>= λ bs. dmx_bytes_to_range_value bs 2)
      ≡ ok seen)
    × (32769 ≤ seen)
    × (seen < 32769 + size_of (2 - 1))
unfolding shift_left
range_value-dmx_bytes_up_example = range_value-dmx_bytes_up 32769 1 2 (omega arith) (omega arith)

-- A shutter with two ranges.
abbrev closed : Capability
closed = record { dmx_range_start = 0; dmx_range_end = 99; menu_click = none; switch_channels = [] }

abbrev strobe : Capability
strobe = record {
  dmx_range_start = 100;
  dmx_range_end = 255;
  menu_click = some center;
  switch_channels = some (codes "Speed") ∷ [];
}

abbrev shutter_types : Dict Text Capability
shutter_types = (codes "Closed", closed) ∷ (codes "Strobe", strobe) ∷ []

abbrev shutter_channel : Channel
shutter_channel = record {
  name = codes "Shutter";
  fine_channel_aliases = [];
  dmx_value_resolution = 1;
  default_value = 0;
  highlight_value = 255;
  constant = false;
  capabilities = closed ∷ strobe ∷ [];
  range_bytes = 1;
}

abbrev shutter : DmxSelect
shutter = record {
  capability_types = shutter_types;
  capability_entities = (codes "Strobe", 1) ∷ [];
  switching_entities = [];
  current_option = codes "Closed";
  num_bytes = 1;
  range_bytes = 1;
  available = λ e. false;
}

async_select_option-update_value_example :
    (bs : Bytes) × ((async_select_option (codes "Strobe") shutter).events
      ≡ apply_option (lookup (codes "Strobe") shutter.switching_entities) ++ (write bs ∷ []))
    × ((async_select_option (codes "Strobe") shutter).result ≡ ok tt)
    × ((update_value bs (async_select_option (codes "Strobe") shutter).after).after.current_option
        ≡ codes "Strobe")
    × ((update_value bs (async_select_option (codes "Strobe") shutter).after).result ≡ ok tt)
unfolding shift_left bytes_beq menu_click_value is_applicable
async_select_option-update_value_example =
    async_select_option-update_value shutter (codes "Strobe") strobe refl (omega arith)
      (omega arith) (omega arith) refl

abbrev operations : List SelectOperation
operations =
    values_changed (120 ∷ [])
    ∷ option_selected (codes "Closed")
    ∷ option_selected (codes "Gone")
    ∷ []

abbrev new_shutter : DmxSelect
new_shutter =
    update_current_option (codes "Closed")
      (record shutter { available = disable_all ((codes "Strobe", 1) ∷ []) (λ e. false) })

-- The construction shows the option of the default value.
make_shutter :
    make_select shutter_types ((codes "Strobe", 1) ∷ []) 1 shutter_channel (λ e. false)
    ≡ ok new_shutter
unfolding make_select update_option_to_dmx_value update_current_option set_availability
    first_applicable is_applicable bytes_beq
make_shutter = refl

available_as_current_example :
    (operate_all operations
        (link_switching_entities ((2, codes "Lamp Speed") ∷ []) new_shutter)).available
      2
    ≡ is_current 2 (
        operate_all operations (link_switching_entities ((2, codes "Lamp Speed") ∷ []) new_shutter))
unfolding operate_all update_value async_select_option write_capability ◌>>=ᵃ◌ current change calls
    value_of update_option_to_dmx_value update_current_option set_availability first_applicable
    is_applicable bytes_beq link_switching_entities link_options link_channels
    dmx_bytes_to_range_value from_bytes menu_click_value range_value_to_dmx_bytes to_bytes
available_as_current_example =
    available_as_current shutter_types ((codes "Strobe", 1) ∷ []) 1 shutter_channel (λ e. false)
      ((2, codes "Lamp Speed") ∷ []) operations new_shutter 2 make_shutter
      (codes "Strobe", inr refl)

abbrev slots : List Slot
slots =
    (0, record { channel = 7; byte_offset = 0 })
    ∷ (1, record { channel = 8; byte_offset = 0 })
    ∷ (2, record { channel = 7; byte_offset = 1 })
    ∷ (3, record { channel = 7; byte_offset = 0 })
    ∷ []

abbrev lamp : List ChannelMapping
lamp =
    mapping_of (1 ∷ []) (color_intensity single_cold_white) false cold_white
    ∷ mapping_of (2 ∷ []) (temperature (some ((true, 8000), (true, 2700)))) false color_temperature
    ∷ []

build_light_entity-channels_example :
    channel_of warm_white (channels_of (build_light_entity lamp)) ≡ (
      if is_left_out warm_white (channel_map lamp)
      then none
      else lookup warm_white (channel_map lamp))
build_light_entity-channels_example = build_light_entity-channels lamp warm_white

abbrev lamp_light : LightEntity
lamp_light = record {
  color_mode = color_temp;
  supported_color_modes = none;
  channels =
      mapping_of (1 ∷ []) (color_intensity single_cold_white) false warm_white
      ∷ mapping_of (2 ∷ []) (temperature (some ((true, 8000), (true, 2700)))) false
          color_temperature
      ∷ [];
  has_separate_dimmer = false;
  min_kelvin = 2700;
  max_kelvin = 8000;
}

build_light_entity-order_example :
    (are_ordered (types_in lamp_light.channels) ≡ true)
    × (lamp_light.min_kelvin ≤ lamp_light.max_kelvin)
unfolding build_light_entity channel_map map_channels plan_light channels_at
    color_temperature_bounds type_beq
build_light_entity-order_example = build_light_entity-order lamp lamp_light refl
