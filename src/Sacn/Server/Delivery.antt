-- ===== src/Sacn/Server/Delivery.antt =====
-- What `SacnServer` sends for a frame (custom_components/dmx/server/sacn_server.py).
use ha_artnet_led.Base.{
  ℕ, zero, suc, ◌-◌, ◌%◌, ◌/◌, map, ◌≤◌, ◌≡◌, refl, ap, ◌∙◌, true, List, [], ◌∷◌, some, length,
  drop, replicate, get_elem?, set, All, if◌then◌else◌, arith, length-append, length-drop,
  length-replicate, inl, inr, Option-cases,
}
use ha_artnet_led.Base.Result.{ok}
use ha_artnet_led.Base.Bytes.{Bytes, rstrip_nul}
use ha_artnet_led.Base.Text.{utf8_encode}
use ha_artnet_led.Base.Text.RoundTrip.{IsCodePoint}
use ha_artnet_led.Base.Dict.{nat_eq, lookup}
use ha_artnet_led.Sacn.Packet.{
  SacnPacket, SacnOptions, post_init, deserialize, get_multicast_address,
}
use ha_artnet_led.Sacn.Packet.Fields.{IsValid}
use ha_artnet_led.Sacn.Packet.RoundTrip.{wire, serialize-wire, deserialize-wire}
use ha_artnet_led.Sacn.Server.{
  SacnServerConfig, SacnServer, UniverseState, create_stream, create_send, running_task, find,
  update_state, Host, Event, sendto_multicast, sendto_host,
}
use ha_artnet_led.Sacn.Server.Invariant.{find-cases}
use ha_artnet_led.Sacn.Server.Send.{
  processed_data, packet_bytes, burst, to_hosts, stream_options, send_packet, needs_stream,
  send_dmx_data, begin_pending, sent_state, finish_pending,
}

-- A configuration whose packets the constructor accepts: a source name of 1 to 63 characters, which
-- takes at most 63 bytes and ends in no NUL, a priority up to 200 and a CID of 16 bytes.
pub record IsValidConfig (config : SacnServerConfig) (encoded : Bytes) : Type 0 where
  pub name_some : 1 ≤ length config.source_name
  pub name_short : length config.source_name ≤ 63
  pub name_text : All IsCodePoint config.source_name
  pub name_encoded : utf8_encode config.source_name ≡ ok encoded
  pub encoded_short : length encoded ≤ 63
  pub name_bare : rstrip_nul config.source_name ≡ config.source_name
  pub priority_low : config.priority ≤ 200
  pub cid_length : length config.cid ≡ 16

-- The packet of a universe.
abbrev pub packet_of : SacnServerConfig → ℕ → ℕ → SacnOptions → Bytes → SacnPacket
packet_of config id sequence options dmx_data = record {
  source_name = config.source_name;
  priority = config.priority;
  universe = id;
  sequence_number = sequence;
  options = options;
  cid = config.cid;
  dmx_data = dmx_data;
}

post_init-eq : (p : SacnPacket) → IsValid p → post_init p ≡ ok p
unfolding post_init
post_init-eq p v = ground (
  arith, v.name_some, v.name_short, v.priority_low, v.universe_pos, v.universe_low, v.sequence_low,
  v.cid_length, v.data_some, v.data_short,
)

pub length-processed_data :
    (d : Bytes)
    → length d ≤ 513
    → (25 ≤ length (processed_data d)) × (length (processed_data d) ≤ 513)
unfolding processed_data
length-processed_data d h =
    let a = length-append (drop 1 d) (replicate (24 - length (drop 1 d)) 0) in
    let b = length-replicate {0} {A = ℕ} (24 - length (drop 1 d)) 0 in
    let c = length-drop 1 d in (omega (arith, a, b, c), omega (arith, a, b, c, h))

-- Packets of valid data are built and serialized, and are read back as they were, for data that
-- start with 0.
pub packet_bytes_read :
    (config : SacnServerConfig) (e : Bytes) (id : ℕ) (st : UniverseState) (o : SacnOptions)
    (d : Bytes)
    → IsValidConfig config e
    → 1 ≤ id
    → id ≤ 63999
    → st.sequence_number ≤ 255
    → length (0 ∷ d) ≤ 513
    → (b : Bytes) × (packet_bytes config id st o (0 ∷ d) ≡ ok b)
      × (deserialize b ≡ ok (packet_of config id st.sequence_number o (0 ∷ d)))
unfolding packet_bytes
packet_bytes_read config e id st o d c low high seq short =
    let p : SacnPacket = packet_of config id st.sequence_number o (0 ∷ d) in
    let v : IsValid p = record {
      name_some = c.name_some;
      name_short = c.name_short;
      name_text = c.name_text;
      priority_low = c.priority_low;
      universe_pos = low;
      universe_low = high;
      sequence_low = seq;
      cid_length = c.cid_length;
      data_some = omega arith;
      data_short = short;
    } in
    (
      wire p e,
      rw (post_init-eq p v) (serialize-wire p e v c.name_encoded),
      deserialize-wire p e v c.encoded_short c.name_encoded ∙ rw c.name_bare (post_init-eq p v),
    )

set_found :
    (sts : List UniverseState) (r : ℕ) (st new : UniverseState)
    → get_elem? sts r ≡ some st
    → get_elem? (set sts r new) r ≡ some new
set_found [] r st new h = absurd (ground arith)
set_found (x ∷ sts) zero st new h = refl
set_found (x ∷ sts) (suc r) st new h = set_found sts r st new h

pub find-update_state :
    (id r : ℕ) (st new : UniverseState) (s : SacnServer)
    → find id s ≡ some (r, st)
    → find id (update_state r new s) ≡ some (r, new)
find-update_state id r st new s h = elim (Option-cases (lookup id s.universes)) [
  | inl n ↦ absurd (ground (arith, h, n))
  | inr (q, e) ↦ elim (Option-cases (get_elem? s.store q)) [
    | inl n ↦ absurd (ground (arith, h, e, n))
    | inr (old, g) ↦
        let place : q ≡ r = ground (arith, h, e, g) in
        ground (arith, e, g, place, set_found s.store q old new g)
  ]
]

pub find_get :
    (id r : ℕ) (st : UniverseState) (s : SacnServer)
    → find id s ≡ some (r, st)
    → get_elem? s.store r ≡ some st
find_get id r st s h = elim (find-cases id s) [
  | inl n ↦ absurd (ground (arith, h, n))
  | inr (q, old, e, g) ↦ ground (arith, h, e, g)
]

-- One packet for the group 239.255.hi.lo of a universe, and one for each host of a list, in order.
abbrev pub sent_to : ℕ → List Host → Bytes → List Event
sent_to id hosts b =
    sendto_multicast (239 ∷ 255 ∷ (id / 256) ∷ (id % 256) ∷ []) b ∷ map (λ h. sendto_host h b) hosts

to_hosts-map : (hosts : List Host) (b : Bytes) → to_hosts hosts b ≡ map (λ h. sendto_host h b) hosts
to_hosts-map [] b = refl
to_hosts-map (h ∷ hs) b = ap (λ es. sendto_host h b ∷ es) (to_hosts-map hs b)

pub burst-sent_to :
    (id : ℕ) (st : UniverseState) (b : Bytes) → burst id st b ≡ sent_to id st.unicast_addresses b
unfolding get_multicast_address
burst-sent_to id st b =
    ap (λ es. sendto_multicast (239 ∷ 255 ∷ (id / 256) ∷ (id % 256) ∷ []) b ∷ es)
      (to_hosts-map st.unicast_addresses b)

-- The object when a frame is handed in.
abbrev pub queued : ℕ → Bytes → UniverseState → UniverseState
queued now d st = record st {
  pending_data = some d;
  last_update_time = now;
  stream_task = if needs_stream st.stream_task then running_task else st.stream_task;
}

pub send_dmx_data-eq :
    (now id r : ℕ) (d : Bytes) (st : UniverseState) (s : SacnServer)
    → s.running ≡ true
    → find id s ≡ some (r, st)
    → send_dmx_data now id d s ≡ record {
      result = true;
      after = update_state r (queued now d st) s;
      events =
          if needs_stream st.stream_task
          then create_stream id ∷ create_send id ∷ []
          else create_send id ∷ [];
    }
unfolding send_dmx_data
send_dmx_data-eq now id r d st s run at = ground (arith, run, at)

pub begin_pending-eq :
    (config : SacnServerConfig) (id r : ℕ) (d : Bytes) (st : UniverseState) (s : SacnServer)
    → find id s ≡ some (r, st)
    → st.pending_data ≡ some d
    → begin_pending config id s ≡ (send_packet config id d s, some r)
unfolding begin_pending
begin_pending-eq config id r d st s at p = ground (arith, at, p)

pub finish_pending-eq :
    (now id r : ℕ) (st : UniverseState) (s : SacnServer)
    → find id s ≡ some (r, st)
    → finish_pending now (some r) s ≡ update_state r (sent_state now st) s
unfolding finish_pending
finish_pending-eq now id r st s at = rw (finish_pending, find_get id r st s at) refl

module _ (config : SacnServerConfig) (e : Bytes) (c : IsValidConfig config e) (id r : ℕ)
    (low : 1 ≤ id) (high : id ≤ 63999) where
  -- A frame of at most 513 bytes goes out in one packet, which reads back as the frame, with the
  -- start code 0 and zeros up to 25 bytes, under the sequence number of the universe.
  pub send_packet_read :
      (st : UniverseState) (s : SacnServer) (d : Bytes)
      → st.sequence_number ≤ 255
      → s.socket ≡ true
      → find id s ≡ some (r, st)
      → length d ≤ 513
      → (b : Bytes) × (send_packet config id d s ≡ burst id st b)
        × (deserialize b
            ≡ ok
                (packet_of config id st.sequence_number (stream_options config) (processed_data d)))
  unfolding send_packet processed_data
  send_packet_read st s d seq up at short =
      let (b, sent, back) =
        packet_bytes_read config e id st (stream_options config) _ c low high seq
          (length-processed_data d short).1 in
      (b, rw (send_packet, at, sent, up) refl, back)
