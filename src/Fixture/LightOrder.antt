-- ===== src/Fixture/LightOrder.antt =====
-- The order of a light's channels, and its temperatures (custom_components/dmx/fixture/delegator.py).
use ha_artnet_led.Base.{
  ◌≤◌, ◌≡◌, refl, subst, Bool, true, false, List, [], ◌∷◌, Option, some, none, ltb, some-injective,
  arith,
}
use ha_artnet_led.Base.Dict.{nat_eq, lookup, contains}
use ha_artnet_led.Fixture.Lights.{
  ChannelType, cold_white, warm_white, color_temperature, dimmer, number_of, type_eq,
  ChannelMapping, LightCapability, color_intensity, intensity, temperature, other, bounds_of,
  color_temperature_bounds, ChannelMap, channel_map, Plan, LightEntity, found, channels_at,
  bounds_at, plan_for, make_light, build_light_entity,
}
use ha_artnet_led.Fixture.LightPlan.{comes_before, are_ordered, types_of, plan-ordered}
use ha_artnet_led.Fixture.LightChannels.{IsTyped, channel_map-IsTyped}

abbrev pub types_in : List ChannelMapping → List ChannelType
types_in [] = []
types_in (m ∷ ms) = m.channel_type ∷ types_in ms

before-found :
    (t u : ChannelType) (here : Option ChannelMapping) (ms : List ChannelMapping)
    (channels : ChannelMap)
    → IsTyped channels
    → lookup u channels ≡ here
    → ltb (number_of t) (number_of u) ≡ true
    → comes_before t (types_in ms) ≡ true
    → comes_before t (types_in (found here ms)) ≡ true
before-found t u none ms channels w e first rest = rest
before-found t u (some m) ms channels w e first rest = rw (w.typed u m e, first) rest

before-channels_at :
    (t : ChannelType) (ts : List ChannelType) (channels : ChannelMap)
    → IsTyped channels
    → comes_before t ts ≡ true
    → comes_before t (types_in (channels_at ts channels)) ≡ true
unfolding channels_at
before-channels_at t [] channels w h = refl
before-channels_at t (u ∷ us) channels w h =
    before-found t u (lookup u channels) _ channels w refl (ground (arith, h))
      (before-channels_at t us channels w (ground (arith, h)))

ordered-found :
    (u : ChannelType) (here : Option ChannelMapping) (ms : List ChannelMapping)
    (channels : ChannelMap)
    → IsTyped channels
    → lookup u channels ≡ here
    → comes_before u (types_in ms) ≡ true
    → are_ordered (types_in ms) ≡ true
    → are_ordered (types_in (found here ms)) ≡ true
ordered-found u none ms channels w e first rest = rest
ordered-found u (some m) ms channels w e first rest = rw (w.typed u m e, first) rest

ordered-channels_at :
    (ts : List ChannelType) (channels : ChannelMap)
    → IsTyped channels
    → are_ordered ts ≡ true
    → are_ordered (types_in (channels_at ts channels)) ≡ true
unfolding channels_at
ordered-channels_at [] channels w h = refl
ordered-channels_at (u ∷ us) channels w h =
    ordered-found u (lookup u channels) _ channels w refl
      (before-channels_at u us channels w (ground (arith, h)))
      (ordered-channels_at us channels w (ground (arith, h)))

bounds_of-ordered : (c : LightCapability) → (bounds_of c).0 ≤ (bounds_of c).1
bounds_of-ordered (color_intensity x) = omega arith
bounds_of-ordered intensity = omega arith
bounds_of-ordered (temperature none) = omega arith
bounds_of-ordered (temperature (some (first, last))) = omega arith
bounds_of-ordered other = omega arith

bounds_at-ordered : (b : Bool) (m : Option ChannelMapping) → (bounds_at b m).0 ≤ (bounds_at b m).1
unfolding color_temperature_bounds
bounds_at-ordered true none = omega arith
bounds_at-ordered true (some m) = bounds_of-ordered m.capability
bounds_at-ordered false m = omega arith

-- The channels of a light that is made stand in the order dimmer, red, green, blue, cold white, warm
-- white, colour temperature, so that no type is there twice, and its lowest temperature is not above
-- its highest, whichever way a fixture's profile runs.
pub build_light_entity-order :
    (accumulated : List ChannelMapping) (light : LightEntity)
    → build_light_entity accumulated ≡ some light
    → (are_ordered (types_in light.channels) ≡ true) × (light.min_kelvin ≤ light.max_kelvin)
unfolding build_light_entity
build_light_entity-order accumulated light e =
    made (plan_for channels)
      (plan-ordered _ (contains cold_white channels) (contains warm_white channels)
        (contains color_temperature channels) (contains dimmer channels))
      e
  where
    channels : ChannelMap
    channels = channel_map accumulated

    made :
        (plan : Option Plan)
        → are_ordered (types_of plan) ≡ true
        → make_light channels plan ≡ some light
        → (are_ordered (types_in light.channels) ≡ true) × (light.min_kelvin ≤ light.max_kelvin)
    made none h e = absurd (cc)
    made (some plan) h e =
        subst
          (λ (l : LightEntity).
            (are_ordered (types_in l.channels) ≡ true) × (l.min_kelvin ≤ l.max_kelvin))
          (some-injective e)
          (
            ordered-channels_at plan.types channels (channel_map-IsTyped accumulated) h,
            bounds_at-ordered _ _,
          )
