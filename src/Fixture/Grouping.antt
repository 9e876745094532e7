-- ===== src/Fixture/Grouping.antt =====
-- What the groups of custom_components/dmx/fixture/delegator.py hold.
use mathlib.Core.List.{Perm}
use mathlib.Core.List.Perm
use ha_artnet_led.Base.{◌≡◌, true, List, [], ◌∷◌, ◌++◌, All}
use ha_artnet_led.Fixture.Group.{Slot, Group, is_free}

-- All slots of the groups.
abbrev pub slots_of : List Group → List Slot
slots_of [] = []
slots_of ((c, g) ∷ gs) = g ++ slots_of gs

-- A group has slots of its channel only, and no byte of the channel twice.
abbrev pub HasDistinctBytes : List Slot → Type 0
HasDistinctBytes [] = Unit
HasDistinctBytes ((i, o) ∷ g) = (is_free o.byte_offset g ≡ true) × HasDistinctBytes g

abbrev pub IsOneChannel : Group → Type 0
IsOneChannel (c, g) = All (λ (s : Slot). s.1.channel ≡ c) g × HasDistinctBytes g
