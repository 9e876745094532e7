-- ===== src/Fixture/Group.antt =====
-- The channels of a mode and the DMX indexes that they take, of custom_components/dmx/fixture/delegator.py.
--
-- A channel is an object, named by a number; `is` compares the numbers.
use ha_artnet_led.Base.{
  ℕ, ◌+◌, Bool, true, not, ◌&&◌, List, [], ◌∷◌, ◌++◌, leb, ◌==◌, map, if◌then◌else◌,
}

-- `ChannelOffset`, and the entries of a mode's list of channels.
pub record ChannelOffset : Type 0 where
  pub channel : ℕ
  pub byte_offset : ℕ

pub data ModeChannel : Type 0 where
  fixed : ChannelOffset → ModeChannel
  switching : List ChannelOffset → ModeChannel
  unused : ModeChannel

abbrev pub Slot : Type 0
Slot = ℕ × ChannelOffset

-- `__get_channel` and `__get_all_channels`, on the list with its indexes from `i`.
unfoldable pub get_channel : ℕ → ModeChannel → List Slot
get_channel i (fixed o) = (i, o) ∷ []
get_channel i (switching os) = map (λ o. (i, o)) os
get_channel i unused = []

unfoldable pub get_all_channels : ℕ → List ModeChannel → List Slot
unfolding get_channel
get_all_channels i [] = []
get_all_channels i (c ∷ cs) = get_channel i c ++ get_all_channels (i + 1) cs

-- `all(g[1].byte_offset != byte_offset for g in group)`
abbrev pub is_free : ℕ → List Slot → Bool
is_free b [] = true
is_free b ((i, o) ∷ g) = not (o.byte_offset == b) && is_free b g

abbrev pub Group : Type 0
Group = ℕ × List Slot

-- One round of the loop of `_group_by_channel`.
unfoldable pub place : Slot → List Group → List Group
place (i, o) [] = (o.channel, (i, o) ∷ []) ∷ []
place (i, o) ((c, g) ∷ gs) =
    let rest = place (i, o) gs in
    if c == o.channel && is_free o.byte_offset g
    then (c, g ++ ((i, o) ∷ [])) ∷ gs
    else (c, g) ∷ rest

unfoldable pub place_all : List Slot → List Group → List Group
unfolding place
place_all [] groups = groups
place_all (s ∷ ss) groups = place_all ss (place s groups)

-- `_group_by_channel`
abbrev pub group_by_channel : List Slot → List Group
group_by_channel channels = place_all channels []

-- `sorted(group, key=lambda g: g[1].byte_offset)`
unfoldable pub insert_slot : Slot → List Slot → List Slot
insert_slot (i, o) [] = (i, o) ∷ []
insert_slot (i, o) ((j, p) ∷ g) =
    let rest = insert_slot (i, o) g in
    if leb o.byte_offset p.byte_offset then (i, o) ∷ (j, p) ∷ g else (j, p) ∷ rest

unfoldable pub sort_slots : List Slot → List Slot
unfolding insert_slot
sort_slots [] = []
sort_slots (s ∷ ss) = insert_slot s (sort_slots ss)

-- `dmx_indexes` of `create_entities`
unfoldable pub dmx_indexes : ℕ → List Slot → List ℕ
unfolding sort_slots
dmx_indexes dmx_start group = map (λ s. s.0 + dmx_start) (sort_slots group)
