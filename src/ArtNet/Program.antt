-- ===== src/ArtNet/Program.antt =====
-- `ArtAddress` and its commands, of custom_components/dmx/server/__init__.py.
pub mod Commands
use ha_artnet_led.Base.{
  ℕ, zero, suc, ◌+◌, ◌-◌, ◌*◌, ◌/◌, Bool, true, false, not, ◌&&◌, ◌||◌, List, [], ◌∷◌, ◌++◌, Option,
  some, none, ◌==◌, ltb, leb, length, replicate, get_elem?, map, bit, bit_and, bit_or,
  if◌then◌else◌,
}
use ha_artnet_led.Base.Result.{Result, ok, err, Exc, check, ◌>>=◌ as ◌>>=ʳ◌, ◌>>◌ as ◌>>ʳ◌}
use ha_artnet_led.Base.Bytes.{Bytes}
use ha_artnet_led.Base.Text.{Text}
use ha_artnet_led.ArtNet.Flags.{flag}
use ha_artnet_led.ArtNet.Codec.{
  Reader, Outcome, outcome, assign, lift, give, raise_unless, ◌>>=◌, ◌>>◌, append, append_int_msb,
  append_str, serialize_base, pop, consume_int_msb, consume_str, deserialize_base,
}

-- The values of `ArtAddressCommand`.
abbrev pub command_values : List ℕ
command_values =
    0x00 ∷ 0x01 ∷ 0x02 ∷ 0x03 ∷ 0x04 ∷ 0x05 ∷ 0x06 ∷ 0x07 ∷ 0x08 ∷ 0x09 ∷ 0x0A ∷ 0x0B ∷ 0x0C ∷ 0x10
    ∷ 0x20 ∷ 0x30 ∷ 0x50 ∷ 0x60 ∷ 0x70 ∷ 0x90 ∷ 0xA0 ∷ 0xB0 ∷ 0xC0 ∷ 0xD0 ∷ []

abbrev pub one_of : List ℕ → ℕ → Bool
one_of [] v = false
one_of (x ∷ xs) v = v == x || one_of xs v

-- `apply_port_index` on the value of a command
unfoldable pub apply_port_index : ℕ → ℕ → Result ℕ
apply_port_index value port_index =
    check (leb port_index 3) >>ʳ ok (if leb 0x10 value then value else value + port_index)

-- `ArtAddressCommand(value)` and `decode_with_port_index`
abbrev pub command_of : ℕ → Result ℕ
command_of value = if one_of command_values value then ok value else err Exc.value_error

unfoldable pub decode_with_port_index : ℕ → Result (ℕ × ℕ)
decode_with_port_index value =
    let port_index = if leb 0x10 value then bit_and value 0x0F else 0 in
    command_of (value - port_index) >>=ʳ λ command. ok (command, port_index)

pub data ValueAction : Type 0 where
  reset ignore write : ValueAction

-- `__apply_value_action` and `__consume_value_and_action`
unfoldable pub apply_value_action : ValueAction → ℕ → ℕ
apply_value_action reset value = 0x00
apply_value_action ignore value = bit_or (0 * 128) value
apply_value_action write value = bit_or (1 * 128) value

abbrev pub action_of : ℕ → ValueAction
action_of value = if value == 0x00 then reset else (if flag value 128 then write else ignore)

pub record ArtAddress : Type 0 where
  pub protocol_version : ℕ
  pub net_switch : ℕ
  pub net_action : ValueAction
  pub sub_switch : ℕ
  pub sub_action : ValueAction
  pub bind_index : ℕ
  pub short_name : Text
  pub long_name : Text
  pub sw_in : List ℕ
  pub sw_in_actions : List ValueAction
  pub sw_out : List ℕ
  pub sw_out_actions : List ValueAction
  pub acn_priority : ℕ
  pub command : ℕ
  pub command_port_index : ℕ

-- `ArtAddress.__init__`: the checks, and the lists filled up to four.
abbrev pub filled : {A : Type 0} → A → List A → List A
filled a xs = xs ++ replicate (4 - length xs) a

unfoldable pub make_address : ArtAddress → Result ArtAddress
make_address a =
    check (ltb (length a.short_name) 18)
    >>ʳ (check (ltb (length a.long_name) 64)
        >>ʳ (check (leb (length a.sw_in) 4)
            >>ʳ (check (leb (length a.sw_in_actions) 4)
                >>ʳ (check (leb (length a.sw_out) 4)
                    >>ʳ (check (leb (length a.sw_out_actions) 4)
                        >>ʳ (check (leb a.acn_priority 200 || a.acn_priority == 255)
                            >>ʳ ok (record a {
                              sw_in = filled 1 a.sw_in;
                              sw_in_actions = filled ignore a.sw_in_actions;
                              sw_out = filled 1 a.sw_out;
                              sw_out_actions = filled ignore a.sw_out_actions;
                            })))))))

-- `__append_sw_in_out`: the first `count` switches from `i` on.
abbrev pub item : {A : Type 0} → List A → ℕ → Result A
item xs i = elim (get_elem? xs i) [ some x ↦ ok x | none ↦ err Exc.index_error ]

unfoldable pub append_switches : List ℕ → List ValueAction → ℕ → ℕ → Result Bytes
append_switches sw actions zero i = ok []
append_switches sw actions (suc count) i = item actions i >>=ʳ λ action. item sw i >>=ʳ λ value.
    append (apply_value_action action value) >>=ʳ λ b.
    append_switches sw actions count (suc i) >>=ʳ λ bs. ok (b ++ bs)

-- `ArtAddress.serialize`
unfoldable pub serialize_address : ArtAddress → Result Bytes
serialize_address a = append (apply_value_action a.net_action a.net_switch) >>=ʳ λ net.
    append a.bind_index >>=ʳ λ bind. append_str a.short_name 18 >>=ʳ λ short_name.
    append_str a.long_name 64 >>=ʳ λ long_name.
    append_switches a.sw_in a.sw_in_actions 4 0 >>=ʳ λ sw_in.
    append_switches a.sw_out a.sw_out_actions 4 0 >>=ʳ λ sw_out.
    append (apply_value_action a.sub_action a.sub_switch) >>=ʳ λ sub.
    append a.acn_priority >>=ʳ λ priority.
    apply_port_index a.command a.command_port_index >>=ʳ λ code. append code >>=ʳ λ command. ok (
      serialize_base 0x6000
      ++ (append_int_msb a.protocol_version
          ++ (net
              ++ (bind
                  ++ (short_name
                      ++ (long_name ++ (sw_in ++ (sw_out ++ (sub ++ (priority ++ command))))))))))

-- `__consume_sw_in_out`: four values.
abbrev pub pop_four : {S : Type 0} → Bytes → Reader S (List ℕ)
pop_four packet = do
  a ← pop packet
  b ← pop packet
  c ← pop packet
  d ← pop packet
  give (a ∷ b ∷ c ∷ d ∷ [])

-- `ArtAddress.deserialize`
unfoldable pub read_address : Bytes → Reader ArtAddress (Unit {0})
read_address packet = do
  deserialize_base packet 0x6000
  version ← consume_int_msb packet
  assign (λ s. record s { protocol_version = version })
  raise_unless (version == 14) Exc.serialization_error
  net ← pop packet
  assign (λ s. record s { net_switch = net; net_action = action_of net })
  bind ← pop packet
  assign (λ s. record s { bind_index = bind })
  short_name ← consume_str packet 18
  assign (λ s. record s { short_name = short_name })
  long_name ← consume_str packet 64
  assign (λ s. record s { long_name = long_name })
  sw_in ← pop_four packet
  assign (λ s. record s { sw_in = sw_in; sw_in_actions = map action_of sw_in })
  sw_out ← pop_four packet
  assign (λ s. record s { sw_out = sw_out; sw_out_actions = map action_of sw_out })
  sub ← pop packet
  assign (λ s. record s { sub_switch = sub; sub_action = action_of sub })
  priority ← pop packet
  assign (λ s. record s { acn_priority = priority })
  command_byte ← pop packet
  decoded ← lift (decode_with_port_index command_byte)
  assign (λ s. record s { command = decoded.0; command_port_index = decoded.1 })

unfoldable pub deserialize_address : Bytes → ArtAddress → Outcome ArtAddress
unfolding read_address
deserialize_address packet self = outcome (read_address packet self 0)
