-- ===== src/ArtNet/Server/Replies.antt =====
-- The poll replies of `ArtNetServer`, and the changes of its own ports, of
-- custom_components/dmx/server/artnet_server.py.
use ha_artnet_led.Base.{
  ℕ, zero, suc, ◌+◌, ◌-◌, Bool, true, false, ◌&&◌, List, [], ◌∷◌, ◌++◌, some, none, ltb, leb, ◌==◌,
  length, get_elem?, replicate, take, drop, if◌then◌else◌, ◌≡◌, ◌↔◌, arith,
}
use ha_artnet_led.Base.Result.{
  Result, ok, err, Exc, check, traverse, ◌>>=◌ as ◌>>=ʳ◌, ◌>>◌ as ◌>>ʳ◌,
}
use ha_artnet_led.Base.Action.{
  Action, ◌>>=◌, ◌>>◌, returns, nothing, current, change, calls, value_of, each,
}
use ha_artnet_led.Base.Bytes.{Bytes}
use ha_artnet_led.Base.Dict.{Dict, Eq, lookup, insert, erase, contains}
use ha_artnet_led.Base.Sets.{add}
use ha_artnet_led.Base.Text.{Text}
use ha_artnet_led.Base.Text.Format.{codes, decimal, zfill}
use ha_artnet_led.ArtNet.Address.{PortAddress, make_port_address}
use ha_artnet_led.ArtNet.Flags.{Port, dmx512, art_net}
use ha_artnet_led.ArtNet.PollReply.{
  ArtPollReply, programmatic, hold_last_state, st_controller, serialize_poll_reply,
}
use ha_artnet_led.ArtNet.Server.{
  ArtNetServer, Event, send_to, port_address_eq, update_status_message,
}

abbrev pub Method : Type 0 → Type 0
Method A = Action ArtNetServer Event A

unfoldable pub pair_beq : ℕ × ℕ → ℕ × ℕ → Bool
pair_beq (a, b) (c, d) = a == c && b == d

pub pair_beq_iff : (p q : ℕ × ℕ) → (pair_beq p q ≡ true) ↔ (p ≡ q)
unfolding pair_beq
pair_beq_iff (a, b) (c, d) = ground arith

instance abbrev pub pair_eq : Eq (ℕ × ℕ)
pair_eq = record { beq = pair_beq; beq_iff = pair_beq_iff }

-- The first comprehensions of `get_grouped_ports`: the nets with sub-nets, and the universes of one.
abbrev pub net_subs : Dict PortAddress ℕ → List (ℕ × ℕ) → List (ℕ × ℕ)
net_subs [] found = found
net_subs ((a, r) ∷ d) found = net_subs d (add (a.net, a.sub_net) found)

abbrev pub universes_of : ℕ × ℕ → Dict PortAddress ℕ → List ℕ
universes_of ns [] = []
universes_of ns ((a, r) ∷ d) =
    let rest = universes_of ns d in
    if pair_beq (a.net, a.sub_net) ns then a.universe ∷ rest else rest

-- `[xs[i : i + 4] for i in range(0, len(xs), 4)]`, at most `fuel` chunks; the list's length is enough.
unfoldable pub chunks_of : {A : Type 0} → ℕ → List A → List (List A)
chunks_of zero xs = []
chunks_of (suc fuel) [] = []
chunks_of (suc fuel) (x ∷ xs) = take 4 (x ∷ xs) ∷ chunks_of fuel (drop 4 (x ∷ xs))

-- `self.own_port_addresses[PortAddress(net, sub, u)].port`
abbrev pub own_port_of : ArtNetServer → PortAddress → Result Port
own_port_of s a = elim (lookup a s.own_port_addresses) [
  | none ↦ err Exc.key_error
  | some r ↦ elim (get_elem? s.store r) [ none ↦ err Exc.key_error | some o ↦ ok o.port ]
]

abbrev pub port_of : ArtNetServer → ℕ × ℕ → ℕ → Result Port
port_of s (net, sub_net) u = make_port_address net sub_net u >>=ʳ own_port_of s

pub record Group : Type 0 where
  pub net : ℕ
  pub sub_net : ℕ
  pub chunks : List (List Port)

abbrev pub group_of : ArtNetServer → ℕ × ℕ → Result Group
group_of s ns =
    let universes = universes_of ns s.own_port_addresses in
    traverse (traverse (port_of s ns)) (chunks_of (length universes) universes) >>=ʳ λ chunks.
    ok (record { net = ns.0; sub_net = ns.1; chunks = chunks })

-- `get_grouped_ports`
unfoldable pub get_grouped_ports : ArtNetServer → Result (List Group)
unfolding pair_beq chunks_of
get_grouped_ports s = traverse (group_of s) (net_subs s.own_port_addresses [])

-- `Port()`
abbrev pub new_port : Port
new_port = record {
  input = false;
  output = false;
  type = dmx512;
  good_input = record {
    data_received = false;
    includes_dmx512_test_packets = false;
    includes_dmx512_sips = false;
    includes_dmx512_text_packets = false;
    input_disabled = false;
    receive_errors_detected = false;
  };
  good_output_a = record {
    data_being_transmitted = false;
    includes_dmx512_test_packets = false;
    includes_dmx512_sips = false;
    includes_dmx512_text_packets = false;
    merging_enabled = false;
    short_detected = false;
    merge_is_ltp = false;
    use_sacn = false;
  };
  sw_in = 0;
  sw_out = 0;
  rdm_enabled = false;
  output_continuous = true;
}

-- `NodeReport.RC_POWER_OK.report`
unfoldable pub report : ℕ → Text → Text
unfolding decimal zfill
report reply_count status_message =
    codes "#1 [" ++ (zfill 4 (decimal reply_count) ++ (codes "] " ++ status_message))

-- The reply that `send_reply` makes for one chunk, through the constructor with its assertions.
unfoldable pub reply_packet : ArtNetServer → ℕ → ℕ → List Port → ℕ → Result ArtPollReply
unfolding report
reply_packet s net sub_net ports bind_index =
    check (length s.own_ip == 4)
    >>ʳ (check (ltb (length s.short_name) 18)
        >>ʳ (check (ltb (length s.long_name) 64)
            >>ʳ (check (leb (length ports) 4)
                >>ʳ (check (length s.mac == 6)
                    >>ʳ ok (record {
                      source_ip = s.own_ip;
                      port = 0x1936;
                      firmware_version = s.firmware_version;
                      net_switch = net;
                      sub_switch = sub_net;
                      oem = s.oem;
                      indicator_state = s.indicator_state;
                      authority = programmatic;
                      boot_process = false;
                      supports_rdm = false;
                      esta = 0;
                      short_name = s.short_name;
                      long_name = s.long_name;
                      node_report = report s.art_poll_reply_counter s.status_message;
                      ports = ports ++ replicate (4 - length ports) new_port;
                      acn_priority = 100;
                      sw_macro_bitmap = 0;
                      sw_remote_bitmap = 0;
                      style = st_controller;
                      mac_address = s.mac;
                      bind_ip = replicate 4 0;
                      bind_index = bind_index;
                      supports_web_browser_configuration = true;
                      dhcp_configured = s.dhcp_configured;
                      dhcp_capable = true;
                      supports_15_bit_port_address = true;
                      supports_switching_to_sacn = false;
                      squawking = false;
                      supports_switching_of_output_style = false;
                      supports_rdm_through_artnet = false;
                      failsafe_state = hold_last_state;
                      supports_failover = false;
                      supports_switching_port_direction = false;
                      ubea_present = false;
                      ubea_value = 0;
                      supports_llrp = true;
                      default_resp_uid = replicate 6 0;
                    })))))

-- `send_artnet` of a reply, and the loops of `send_reply`; they give the next bind index.
unfoldable pub send_chunk : Bytes → ℕ → ℕ → List Port → ℕ → Method ℕ
unfolding reply_packet
send_chunk addr net sub_net ports bind_index = do
  s ← current
  reply ← value_of (reply_packet s net sub_net ports bind_index)
  packet ← value_of (serialize_poll_reply reply)
  calls (send_to addr packet ∷ [])
  change (λ s. record s { art_poll_reply_counter = s.art_poll_reply_counter + 1 })
  returns (if bind_index == 0 then 0 else bind_index + 1)

unfoldable pub send_chunks : Bytes → ℕ → ℕ → List (List Port) → ℕ → Method ℕ
unfolding send_chunk
send_chunks addr net sub_net [] bind_index = returns bind_index
send_chunks addr net sub_net (ports ∷ chunks) bind_index =
    send_chunk addr net sub_net ports bind_index >>= send_chunks addr net sub_net chunks

unfoldable pub send_groups : Bytes → List Group → ℕ → Method (Unit {0})
unfolding send_chunks
send_groups addr [] bind_index = nothing
send_groups addr (g ∷ gs) bind_index =
    send_chunks addr g.net g.sub_net g.chunks bind_index >>= send_groups addr gs

-- `send_reply`
unfoldable pub send_reply : Bytes → Method (Unit {0})
unfolding get_grouped_ports send_groups
send_reply addr = do
  s ← current
  groups ← value_of (get_grouped_ports s)
  send_groups addr groups (if ltb 1 (length groups) then 1 else 0)

-- `update_subscribers`
unfoldable pub update_subscribers : Method (Unit {0})
unfolding send_reply
update_subscribers = do s ← current; each send_reply s.node_change_subscribers

-- `add_port`
unfoldable pub add_port : ℕ → PortAddress → Method (Unit {0})
unfolding update_status_message update_subscribers
add_port now address = do
  let port : Port = record new_port {
    input = true;
    output = true;
    type = art_net;
    sw_in = address.universe;
    sw_out = address.universe;
  }
  change (λ s. record s {
    store =
        s.store
        ++ (record { port = port; payload = none; update_task = none; last_input_seen = now } ∷ []);
    own_port_addresses = insert address (length s.store) s.own_port_addresses;
  })
  change update_status_message
  update_subscribers

-- `remove_port`
unfoldable pub remove_port : PortAddress → Method (Unit {0})
unfolding update_status_message update_subscribers
remove_port address = do
  s ← current
  value_of (if contains address s.own_port_addresses then ok tt else err Exc.key_error)
  change (λ s. record s { own_port_addresses = erase address s.own_port_addresses })
  change update_status_message
  update_subscribers
