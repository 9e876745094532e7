-- ===== src/ArtNet/Server/Receiving.antt =====
-- The datagrams that `ArtNetServer` receives, of custom_components/dmx/server/artnet_server.py.
--
-- `peek_opcode` is that of `ArtBase` (custom_components/dmx/server/__init__.py). A decoding with
-- errors="replace" is a parameter of the trigger's handler.
use ha_artnet_led.Base.{
  ℕ, ◌+◌, Bool, true, false, not, ◌&&◌, ◌||◌, List, [], ◌∷◌, Option, some, none, ltb, leb, ◌==◌,
  get_elem?, if◌then◌else◌,
}
use ha_artnet_led.Base.Result.{ok, err, Exc}
use ha_artnet_led.Base.Action.{
  ◌>>=◌, ◌>>◌, nothing, current, change, calls, value_of, only_if, each,
}
use ha_artnet_led.Base.Bytes.{Bytes}
use ha_artnet_led.Base.Dict.{Dict, lookup}
use ha_artnet_led.Base.Sets.{add}
use ha_artnet_led.Base.Text.{Text, utf8_decode}
use ha_artnet_led.Base.Text.Format.{codes}
use ha_artnet_led.ArtNet.Address.{PortAddress}
use ha_artnet_led.ArtNet.Codec.{text_eq, until_nul}
use ha_artnet_led.ArtNet.Dmx.{ArtDmx}
use ha_artnet_led.ArtNet.Poll.{ArtPoll, DiagnosticsPriority}
use ha_artnet_led.ArtNet.Messages.{ArtCommand, ArtTrigger, make_diag_data, serialize_diag_data}
use ha_artnet_led.ArtNet.Server.{
  ArtNetServer, OwnPort, Node, NodeKey, send_to, state_update, reply_later, disable_later,
  fire_trigger, port_address_eq, bytes_beq, should_handle_ports,
}
use ha_artnet_led.ArtNet.Server.Replies.{Method, update_subscribers}
use ha_artnet_led.ArtNet.Server.Sending.{modify_port}
use ha_artnet_led.ArtNet.Server.Nodes.{bytes_eq}

-- `send_diagnostics` to one address.
unfoldable pub send_diagnostics : Bytes → DiagnosticsPriority → Method (Unit {0})
send_diagnostics addr priority = do
  s ← current
  diag_data ← value_of (make_diag_data 14 priority 0 s.status_message)
  packet ← value_of (serialize_diag_data diag_data)
  calls (send_to addr packet ∷ [])

-- `handle_poll`
unfoldable pub handle_poll : Bytes → ArtPoll → Method (Unit {0})
unfolding should_handle_ports send_diagnostics
handle_poll addr poll = do
  s ← current
  if bytes_beq addr s.own_ip
        || (poll.enable_targeted_mode
            && not (should_handle_ports poll.target_port_bottom poll.target_port_top s))
      then nothing
      else (do
        only_if poll.notify_on_change (
            change (λ t. record t { node_change_subscribers = add addr t.node_change_subscribers }))
        calls (reply_later addr ∷ [])
        only_if poll.enable_diagnostics (send_diagnostics addr poll.diag_priority))

-- The name of the first node with the sender's address.
unfoldable pub sender_name : Bytes → Dict NodeKey Node → Text
sender_name addr [] = codes "Unknown controller"
sender_name addr (((ip, i), n) ∷ d) = if bytes_beq ip addr then n.name else sender_name addr d

abbrev pub set_received : Bool → OwnPort → OwnPort
set_received b o = record o {
  port = record o.port { good_input = record o.port.good_input { data_received = b } };
}

-- The rest of `handle_dmx`, for the own port at `r`.
unfoldable pub accept_dmx : ℕ → ArtDmx → Bytes → ℕ → OwnPort → Method (Unit {0})
unfolding modify_port update_subscribers sender_name
accept_dmx now dmx sender r own_port = do
  only_if (not own_port.port.good_input.data_received)
      (change (modify_port r (set_received true)) >> update_subscribers)
  change (modify_port r (λ o. record o { last_input_seen = now }))
  calls (disable_later r ∷ [])
  s ← current
  only_if s.has_state_callback
      (calls (state_update dmx.address dmx.payload (sender_name sender s.nodes_by_ip) ∷ []))

abbrev pub own_port_object : PortAddress → ArtNetServer → Option (ℕ × OwnPort)
own_port_object address s = elim (lookup address s.own_port_addresses) [
  | none ↦ none
  | some r ↦ elim (get_elem? s.store r) [ none ↦ none | some o ↦ some (r, o) ]
]

-- `handle_dmx`, with the address of the sender.
unfoldable pub handle_dmx : ℕ → ArtDmx → Bytes → Method (Unit {0})
unfolding accept_dmx
handle_dmx now dmx sender = do
  s ← current
  elim (own_port_object dmx.address s) [
    | none ↦ nothing
    | some (r, o) ↦ if bytes_beq sender s.own_ip then nothing else accept_dmx now dmx sender r o
  ]

-- `disable_input_flag` after its sleep.
unfoldable pub disable_input_flag : ℕ → ℕ → Method (Unit {0})
unfolding modify_port update_subscribers
disable_input_flag now r = do
  s ← current
  elim (get_elem? s.store r) [
    | none ↦ nothing
    | some o ↦
        only_if (ltb (o.last_input_seen + 4000000) now)
          (change (modify_port r (set_received false)) >> update_subscribers)
  ]

-- `text.split(c)`, `text.strip(" ")` and `text.lower()` of ASCII.
abbrev pub add_first : ℕ → List Text → List Text
add_first x [] = (x ∷ []) ∷ []
add_first x (part ∷ parts) = (x ∷ part) ∷ parts

abbrev pub split : ℕ → Text → List Text
split c [] = [] ∷ []
split c (x ∷ xs) = let parts = split c xs in if x == c then [] ∷ parts else add_first x parts

abbrev pub lstrip : Text → Text
lstrip [] = []
lstrip (x ∷ xs) = if x == 32 then lstrip xs else x ∷ xs

abbrev pub rstrip : Text → Text
rstrip [] = []
rstrip (x ∷ xs) = elim (rstrip xs) [ [] ↦ if x == 32 then [] else x ∷ [] | y ∷ ys ↦ x ∷ y ∷ ys ]

abbrev pub lower : Text → Text
lower [] = []
lower (x ∷ xs) = (if leb b'A' x && leb x b'Z' then x + 32 else x) ∷ lower xs

-- One command `key=value` of `handle_command`.
abbrev pub set_text : Text → Text → ArtNetServer → ArtNetServer
set_text key value s =
    if text_eq (lower key) (codes "swouttext")
    then record s { swout_text = value }
    else (if text_eq (lower key) (codes "swintext") then record s { swin_text = value } else s)

abbrev pub apply_pair : List Text → Method (Unit {0})
apply_pair (key ∷ value ∷ []) = change (set_text key value)
apply_pair _ = value_of (err Exc.value_error)

abbrev pub apply_command : Text → Method (Unit {0})
apply_command [] = nothing
apply_command (x ∷ xs) = apply_pair (split b'=' (x ∷ xs))

-- `handle_command`
unfoldable pub handle_command : ArtCommand → Method (Unit {0})
handle_command c =
    only_if (c.esta == 0xFFFF)
      (each (λ t. apply_command (lstrip (rstrip t))) (split b'&' c.command))

-- `handle_trigger`; decoding with replacement does not fail, so that the other fallbacks are not
-- reached.
unfoldable pub handle_trigger : (Bytes → Text) → ArtTrigger → Method (Unit {0})
unfolding utf8_decode
handle_trigger decode_replacing t =
    let payload = until_nul t.payload in
    let text : Text = elim (utf8_decode payload) [
      | ok text ↦ text
      | err e ↦ decode_replacing payload
    ] in
    calls (fire_trigger t.oem t.key t.sub_key text ∷ [])
