-- ===== src/Fixture/LightChannels.antt =====
-- Which of a fixture's channels its light entities have (custom_components/dmx/fixture/delegator.py).
use ha_artnet_led.Base.{
  ◌≡◌, refl, sym, ap, ◌∙◌, Bool, true, false, not, ◌&&◌, List, [], ◌∷◌, Option, some, none, inl,
  inr, Bool-cases, Option-cases, some-injective, arith, if◌then◌else◌,
}
use ha_artnet_led.Base.Dict.{
  nat_eq, lookup, insert, erase, contains, Unique, lookup-insert, lookup-erase, insert-Unique,
  erase-Unique,
}
use ha_artnet_led.Fixture.Lights.{
  ChannelType, cold_white, warm_white, color_temperature, type_beq, type_beq_iff, type_eq,
  ChannelMapping, ChannelMap, map_channels, rename_cold, channel_map, Plan, LightEntity, found,
  channels_at, has_type, plan_for, make_light, build_light_entity,
}
use ha_artnet_led.Fixture.LightPlan.{types_of, is_left_out, plan-types}

-- What holds of the dict of the channels: no key twice, each mapping under its type.
pub record IsTyped (channels : ChannelMap) : Type 0 where
  pub typed :
      (t : ChannelType) (m : ChannelMapping) → lookup t channels ≡ some m → m.channel_type ≡ t
  pub unique : Unique channels

insert-IsTyped :
    (t : ChannelType) (m : ChannelMapping) (channels : ChannelMap)
    → m.channel_type ≡ t
    → IsTyped channels
    → IsTyped (insert t m channels)
insert-IsTyped t m channels same w = record {
  typed = λ u n e. elim (Bool-cases (type_beq u t)) [
    | inl y ↦
        let here : some m ≡ some n = sym (lookup-insert t u m channels ∙ rw y refl) ∙ e in
        ap (λ (x : ChannelMapping). x.channel_type) (sym (some-injective here))
        ∙ same
        ∙ sym ((type_beq_iff u t).0 y)
    | inr other ↦ w.typed u n (sym (lookup-insert t u m channels ∙ rw other refl) ∙ e)
  ];
  unique = insert-Unique t m channels w.unique;
}

erase-IsTyped :
    (t : ChannelType) (channels : ChannelMap) → IsTyped channels → IsTyped (erase t channels)
erase-IsTyped t channels w = record {
  typed = λ u n e. elim (Bool-cases (type_beq u t)) [
    | inl y ↦
        absurd (
          let gone : none ≡ some n = sym (lookup-erase t u channels w.unique ∙ rw y refl) ∙ e in cc)
    | inr other ↦ w.typed u n (sym (lookup-erase t u channels w.unique ∙ rw other refl) ∙ e)
  ];
  unique = erase-Unique t channels w.unique;
}

map_channels-IsTyped :
    (ms : List ChannelMapping) (channels : ChannelMap)
    → IsTyped channels
    → IsTyped (map_channels ms channels)
unfolding map_channels
map_channels-IsTyped [] channels w = w
map_channels-IsTyped (m ∷ ms) channels w =
    elim (Bool-cases
      (type_beq m.channel_type color_temperature && contains color_temperature channels)) [
        | inl y ↦ rw y (map_channels-IsTyped ms channels w)
        | inr n ↦ rw n (map_channels-IsTyped ms _ (insert-IsTyped m.channel_type m channels refl w))
      ]

rename_cold-IsTyped :
    (cold : Option ChannelMapping) (channels : ChannelMap)
    → IsTyped channels
    → IsTyped (rename_cold cold channels)
rename_cold-IsTyped none channels w = w
rename_cold-IsTyped (some m) channels w = elim (Bool-cases (contains warm_white channels)) [
  | inl y ↦ rw y w
  | inr n ↦ rw n (insert-IsTyped warm_white _ _ refl (erase-IsTyped cold_white channels w))
]

pub channel_map-IsTyped : (accumulated : List ChannelMapping) → IsTyped (channel_map accumulated)
unfolding channel_map
channel_map-IsTyped accumulated =
    rename_cold-IsTyped _ _
      (map_channels-IsTyped accumulated [] (record { typed = λ t m e. absurd (cc); unique = tt }))

-- A cold white stays only beside a warm one.
rename_cold-warm :
    (cold : Option ChannelMapping) (channels : ChannelMap)
    → lookup cold_white channels ≡ cold
    → contains cold_white (rename_cold cold channels) ≡ true
    → contains warm_white (rename_cold cold channels) ≡ true
unfolding type_beq
rename_cold-warm none channels e h = ground (arith, e, h)
rename_cold-warm (some m) channels e h = elim (Bool-cases (contains warm_white channels)) [
  | inl y ↦ rw y y
  | inr n ↦ rw n (
      let there : lookup warm_white
            (insert warm_white (record m { channel_type = warm_white }) (erase cold_white channels))
          ≡ some (record m { channel_type = warm_white }) =
        lookup-insert warm_white warm_white _ (erase cold_white channels) in
      rw (there, contains) refl)
]

-- The first channel of a type.
abbrev pub channel_of : ChannelType → List ChannelMapping → Option ChannelMapping
channel_of t [] = none
channel_of t (m ∷ ms) =
    let rest = channel_of t ms in if type_beq t m.channel_type then some m else rest

abbrev pub channels_of : Option LightEntity → List ChannelMapping
channels_of none = []
channels_of (some light) = light.channels

channel_of-found :
    (t u : ChannelType) (here : Option ChannelMapping) (ms : List ChannelMapping)
    (channels : ChannelMap)
    → IsTyped channels
    → lookup u channels ≡ here
    → channel_of t (found here ms) ≡ (
        if type_beq t u
        then (elim here [ none ↦ channel_of t ms | some m ↦ some m ])
        else channel_of t ms)
channel_of-found t u none ms channels w e = ground arith
channel_of-found t u (some m) ms channels w e = rw (w.typed u m e) refl

nowhere : (b : Bool) (m : Option ChannelMapping) → m ≡ none → (if b then m else none) ≡ none
nowhere true m e = e
nowhere false m e = refl

channel_of-channels_at :
    (t : ChannelType) (ts : List ChannelType) (channels : ChannelMap)
    → IsTyped channels
    → channel_of t (channels_at ts channels) ≡ (if has_type t ts then lookup t channels else none)
unfolding channels_at
channel_of-channels_at t [] channels w = refl
channel_of-channels_at t (u ∷ us) channels w =
    channel_of-found t u (lookup u channels) (channels_at us channels) channels w refl
    ∙ elim (Bool-cases (type_beq t u)) [
      | inl y ↦
          let same : lookup t channels ≡ lookup u channels =
            ap (λ (x : ChannelType). lookup x channels) ((type_beq_iff t u).0 y) in
          elim (Option-cases (lookup u channels)) [
            | inl nothing ↦
                rw (y, nothing)
                  (channel_of-channels_at t us channels w
                    ∙ nowhere (has_type t us) (lookup t channels) (same ∙ nothing)
                    ∙ sym (same ∙ nothing))
            | inr (m, there) ↦ rw (y, there) (sym (same ∙ there))
          ]
      | inr other ↦ rw other (channel_of-channels_at t us channels w)
    ]

-- For every channel type, the light that is made of the accumulated channels of a matrix key has the
-- channel that the dict of channels has for the type, a lone cold white as a warm one, and it has none
-- of the type where the dict has none, or where the type is left out: a colour where one of red,
-- green and blue is missing, and a colour temperature beside these three with neither a white nor a
-- dimmer. Where no light is made, nothing but colours is there.
pub build_light_entity-channels :
    (accumulated : List ChannelMapping) (t : ChannelType)
    → channel_of t (channels_of (build_light_entity accumulated)) ≡ (
        if is_left_out t (channel_map accumulated)
        then none
        else lookup t (channel_map accumulated))
unfolding build_light_entity channel_map
build_light_entity-channels accumulated t =
    let w = channel_map-IsTyped accumulated in
    let warm =
      rename_cold-warm (lookup cold_white (map_channels accumulated []))
        (map_channels accumulated []) refl in
    made t (channel_map accumulated) (plan_for (channel_map accumulated)) w
    ∙ rw (plan-types t (channel_map accumulated) warm) (kept t (channel_map accumulated))
  where
    made :
        (t : ChannelType) (channels : ChannelMap) (plan : Option Plan)
        → IsTyped channels
        → channel_of t (channels_of (make_light channels plan))
          ≡ (if has_type t (types_of plan) then lookup t channels else none)
    made t channels none w = refl
    made t channels (some plan) w = channel_of-channels_at t plan.types channels w

    kept :
        (t : ChannelType) (channels : ChannelMap)
        → (if contains t channels && not (is_left_out t channels) then lookup t channels else none)
          ≡ (if is_left_out t channels then none else lookup t channels)
    kept t channels = ground arith
