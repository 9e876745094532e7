-- ===== src/Fixture/Select.antt =====
-- `DmxSelectEntity` of custom_components/dmx/entity/select.py: the option of a channel with several
-- capabilities, and which of the number entities can be used.
--
-- The number entities are objects, named by numbers, that other selects hold too: the flags
-- `available` are a store. The text of a capability is a parameter.
use ha_artnet_led.Base.{
  ℕ, ◌+◌, Bool, true, false, ◌||◌, List, [], ◌∷◌, ◌++◌, Option, some, none, ltb, ◌==◌,
  if◌then◌else◌,
}
use ha_artnet_led.Base.Result.{Result, ok, err, Exc}
use ha_artnet_led.Base.Action.{Action, ◌>>=◌, ◌>>◌, current, change, calls, value_of}
use ha_artnet_led.Base.Bytes.{Bytes}
use ha_artnet_led.Base.Dict.{Dict, Eq, lookup, insert}
use ha_artnet_led.Base.Text.{Text}
use ha_artnet_led.Base.Text.Format.{codes, decimal}
use ha_artnet_led.ArtNet.Server.{bytes_beq, bytes_beq_iff}
use ha_artnet_led.Fixture.Channel.{
  Capability, Channel, menu_click_value, is_applicable, dmx_bytes_to_range_value,
  range_value_to_dmx_bytes,
}

instance abbrev pub text_eq : Eq Text
text_eq = record { beq = bytes_beq; beq_iff = bytes_beq_iff }

-- `capability_options`, with the counts and the options so far.
abbrev pub counted : Option ℕ → ℕ
counted none = 1
counted (some n) = n + 1

abbrev pub option_name : Text → ℕ → Text
option_name name n = if ltb 1 n then name ++ (codes " " ++ decimal n) else name

unfoldable pub number_options :
    (Capability → Text)
    → List Capability
    → Dict Text ℕ
    → Dict Text Capability
    → Dict Text Capability
number_options str [] counts options = options
number_options str (c ∷ cs) counts options =
    let n = counted (lookup (str c) counts) in
    number_options str cs (insert (str c) n counts) (insert (option_name (str c) n) c options)

abbrev pub capability_options : (Capability → Text) → Channel → Dict Text Capability
capability_options str channel = number_options str channel.capabilities [] []

pub record DmxSelect : Type 0 where
  pub capability_types : Dict Text Capability
  pub capability_entities : Dict Text ℕ
  pub switching_entities : Dict Text ℕ
  pub current_option : Text
  pub num_bytes : ℕ
  pub range_bytes : ℕ
  pub available : ℕ → Bool

-- A call of another object: the value of a number entity is applied again if it has one, or bytes are
-- written to the channels and sent.
pub data SelectEvent : Type 0 where
  apply_again : ℕ → SelectEvent
  write : Bytes → SelectEvent

abbrev pub is_entity : ℕ → Option ℕ → Bool
is_entity e none = false
is_entity e (some x) = e == x

abbrev pub flagged : Bool → Option ℕ → (ℕ → Bool) → ℕ → Bool
flagged b o available e = if is_entity e o then b else available e

-- `__set_availability`
unfoldable pub set_availability : Bool → DmxSelect → DmxSelect
set_availability b s = record s {
  available =
      flagged b (lookup s.current_option s.switching_entities)
        (flagged b (lookup s.current_option s.capability_entities) s.available);
}

-- `_update_current_option_sync`
unfoldable pub update_current_option : Text → DmxSelect → DmxSelect
unfolding set_availability
update_current_option option s =
    set_availability true (record (set_availability false s) { current_option = option })

-- The first option that applies to the value.
unfoldable pub first_applicable : ℕ → Dict Text Capability → Option Text
unfolding is_applicable
first_applicable value [] = none
first_applicable value ((name, c) ∷ types) =
    if is_applicable value c then some name else first_applicable value types

abbrev pub show_option : Option Text → DmxSelect → DmxSelect
show_option none s = s
show_option (some option) s = update_current_option option s

-- `update_option_to_dmx_value`
unfoldable pub update_option_to_dmx_value : ℕ → DmxSelect → DmxSelect
unfolding update_current_option first_applicable
update_option_to_dmx_value value s = show_option (first_applicable value s.capability_types) s

-- `update_value`, with the values of the channels.
unfoldable pub update_value : Bytes → Action DmxSelect SelectEvent (Unit {0})
unfolding update_option_to_dmx_value
update_value values = do
  s ← current
  value ← value_of (dmx_bytes_to_range_value values s.range_bytes)
  change (update_option_to_dmx_value value)

-- `_write_capability`
abbrev pub or_start : Option ℕ → Capability → ℕ
or_start none c = c.dmx_range_start
or_start (some value) c = value

abbrev pub written_value : Capability → ℕ
written_value c = or_start (menu_click_value c) c

abbrev pub capability_at : Option Capability → Result Capability
capability_at none = err Exc.key_error
capability_at (some c) = ok c

unfoldable pub write_capability : Capability → Action DmxSelect SelectEvent (Unit {0})
write_capability c = do
  s ← current
  values ← value_of (range_value_to_dmx_bytes (written_value c) s.num_bytes s.range_bytes)
  calls (write values ∷ [])

abbrev pub apply_option : Option ℕ → List SelectEvent
apply_option none = []
apply_option (some e) = apply_again e ∷ []

-- `async_select_option`
unfoldable pub async_select_option : Text → Action DmxSelect SelectEvent (Unit {0})
unfolding update_current_option write_capability
async_select_option option = do
  s ← current
  change (update_current_option option)
  calls (apply_option (lookup option s.switching_entities))
  c ← value_of (capability_at (lookup option s.capability_types))
  write_capability c

-- `DmxSelectEntity.__init__`, on the flags that the number entities have.
abbrev pub disable_all : Dict Text ℕ → (ℕ → Bool) → ℕ → Bool
disable_all [] available = available
disable_all ((name, e) ∷ d) available = disable_all d (flagged false (some e) available)

unfoldable pub make_select :
    Dict Text Capability → Dict Text ℕ → ℕ → Channel → (ℕ → Bool) → Result DmxSelect
unfolding update_option_to_dmx_value
make_select [] capability_entities num_bytes channel available = err Exc.index_error
make_select ((name, c) ∷ types) capability_entities num_bytes channel available = ok (
    update_option_to_dmx_value channel.default_value (record {
      capability_types = (name, c) ∷ types;
      capability_entities = capability_entities;
      switching_entities = [];
      current_option = name;
      num_bytes = num_bytes;
      range_bytes = channel.range_bytes;
      available = disable_all capability_entities available;
    }))

-- `link_switching_entities`: the first number entity whose name ends with the channel's.
abbrev pub ends_with : Text → Text → Bool
ends_with suffix [] = bytes_beq suffix []
ends_with suffix (x ∷ xs) = let rest = ends_with suffix xs in bytes_beq suffix (x ∷ xs) || rest

abbrev pub first_named : Text → List (ℕ × Text) → Option ℕ
first_named channel_name [] = none
first_named channel_name ((e, name) ∷ entities) =
    if ends_with channel_name name then some e else first_named channel_name entities

abbrev pub link_entity : Text → Option ℕ → DmxSelect → DmxSelect
link_entity option none s = s
link_entity option (some e) s = record s {
  switching_entities = insert option e s.switching_entities;
  available = flagged false (some e) s.available;
}

unfoldable pub link_channels : List (ℕ × Text) → Text → List (Option Text) → DmxSelect → DmxSelect
link_channels entities option [] s = s
link_channels entities option (none ∷ names) s = link_channels entities option names s
link_channels entities option (some name ∷ names) s =
    link_channels entities option names (link_entity option (first_named name entities) s)

unfoldable pub link_options : List (ℕ × Text) → Dict Text Capability → DmxSelect → DmxSelect
unfolding link_channels
link_options entities [] s = s
link_options entities ((option, c) ∷ types) s =
    link_options entities types (link_channels entities option c.switch_channels s)

unfoldable pub link_switching_entities : List (ℕ × Text) → DmxSelect → DmxSelect
unfolding link_options set_availability
link_switching_entities entities s =
    set_availability true (link_options entities s.capability_types s)

-- What happens to a select after it is linked.
pub data SelectOperation : Type 0 where
  values_changed : Bytes → SelectOperation
  option_selected : Text → SelectOperation

abbrev pub operate : SelectOperation → Action DmxSelect SelectEvent (Unit {0})
operate (values_changed values) = update_value values
operate (option_selected option) = async_select_option option

-- An exception ends the operation and not the entity.
unfoldable pub operate_all : List SelectOperation → DmxSelect → DmxSelect
unfolding update_value async_select_option
operate_all [] s = s
operate_all (o ∷ os) s = operate_all os (operate o s).after
