-- ===== src/Sacn/Server/Overlap.antt =====
-- Two frames whose sends overlap, in `SacnServer` (custom_components/dmx/server/sacn_server.py).
use ha_artnet_led.Base.{ℕ, ◌+◌, ◌%◌, ◌≤◌, ◌≡◌, refl, ap, ◌∙◌, true, some, none, length, arith}
use ha_artnet_led.Base.Result.{ok}
use ha_artnet_led.Base.Bytes.{Bytes}
use ha_artnet_led.Sacn.Packet.{deserialize}
use ha_artnet_led.Sacn.Server.{
  SacnServerConfig, SacnServer, UniverseState, increment_sequence, find, update_state,
}
use ha_artnet_led.Sacn.Server.Send.{
  processed_data, burst, stream_options, send_dmx_data, begin_pending, sent_state, finish_pending,
}
use ha_artnet_led.Sacn.Server.Delivery.{
  IsValidConfig, packet_of, queued, send_packet_read, send_dmx_data-eq, begin_pending-eq,
  finish_pending-eq, find-update_state,
}

-- When the second of two frames is handed in and its send begins before the first send is over, both
-- packets carry the same sequence number. When both sends are over, the number has advanced by two
-- in a byte and the universe has no last frame, so that its stream has nothing to retransmit.
pub overlapping_sends :
    (config : SacnServerConfig) (e : Bytes) (id r : ℕ) (st : UniverseState) (s : SacnServer)
    (d d' : Bytes) (now : ℕ)
    → IsValidConfig config e
    → 1 ≤ id
    → id ≤ 63999
    → st.sequence_number ≤ 255
    → s.running ≡ true
    → s.socket ≡ true
    → find id s ≡ some (r, st)
    → length d ≤ 513
    → length d' ≤ 513
    → let first = (send_dmx_data now id d s).after in
      let second = (send_dmx_data now id d' first).after in
      let over =
        finish_pending now
          (begin_pending config id second).1
          (finish_pending now (begin_pending config id first).1 second) in
      (b b' : Bytes) × ((begin_pending config id first).0 ≡ burst id st b)
      × ((begin_pending config id second).0 ≡ burst id st b')
      × (deserialize b
          ≡ ok (packet_of config id st.sequence_number (stream_options config) (processed_data d)))
      × (deserialize b'
          ≡ ok (packet_of config id st.sequence_number (stream_options config) (processed_data d')))
      × (new : UniverseState) × (find id over ≡ some (r, new))
      × (new.sequence_number ≡ (st.sequence_number + 2) % 256)
      × (new.last_data ≡ none)
      × (new.pending_data ≡ none)
unfolding increment_sequence
overlapping_sends config e id r st s d d' now c low high seq run up at short short' =
    let q : UniverseState = queued now d st in
    let t : SacnServer = update_state r q s in
    let there : find id t ≡ some (r, q) = find-update_state id r st q s at in
    let (b, sent, back) = send_packet_read config e c id r low high q t d seq up there short in
    let begun : begin_pending config id t ≡ (burst id q b, some r) =
      begin_pending-eq config id r d q t there refl ∙ ap (λ es. (es, some r)) sent in
    let q' : UniverseState = queued now d' q in
    let t' : SacnServer = update_state r q' t in
    let there' : find id t' ≡ some (r, q') = find-update_state id r q q' t there in
    let (b', sent', back') =
      send_packet_read config e c id r low high q' t' d' seq up there' short' in
    let begun' : begin_pending config id t' ≡ (burst id q' b', some r) =
      begin_pending-eq config id r d' q' t' there' refl ∙ ap (λ es. (es, some r)) sent' in
    let f : UniverseState = sent_state now q' in
    let u : SacnServer = update_state r f t' in
    let there_u : find id u ≡ some (r, f) = find-update_state id r q' f t' there' in
    rw
      (
        send_dmx_data-eq now id r d st s run at,
        send_dmx_data-eq now id r d' q t run there,
        begun,
        begun',
        finish_pending-eq now id r q' t' there',
        finish_pending-eq now id r f u there_u,
      )
      (
        b,
        b',
        refl,
        refl,
        back,
        back',
        sent_state now f,
        find-update_state id r f (sent_state now f) u there_u,
        omega arith,
        refl,
        refl,
      )
