-- ===== src/Sacn/Tests/Streams.antt =====
-- The theorems on the sACN server and receiver at a server with two universes.
use ha_artnet_led.Base.{
  ◌+◌, ◌%◌, ◌≡◌, refl, true, false, not, ◌&&◌, ◌||◌, [], ◌∷◌, some, none, arith, leb, replicate,
  ◌==◌,
}
use ha_artnet_led.Base.Result.{ok}
use ha_artnet_led.Base.Bytes.{Bytes, rstrip_nul}
use ha_artnet_led.Base.Text.{utf8_encode}
use ha_artnet_led.Sacn.Packet.{deserialize, get_multicast_address}
use ha_artnet_led.Sacn.Server.{
  SacnServerConfig, SacnServer, UniverseState, running_task, no_task, find,
}
use ha_artnet_led.Sacn.Server.Send.{
  processed_data, burst, stream_options, send_dmx_data, begin_pending, finish_pending,
}
use ha_artnet_led.Sacn.Server.Tasks.{rest, then_move, send, begin, finish, stop}
use ha_artnet_led.Sacn.Server.Send.{stop_server}
use ha_artnet_led.Sacn.Server.Invariant.{IsWell, Moves-IsWell}
use ha_artnet_led.Sacn.Server.Delivery.{IsValidConfig, packet_of}
use ha_artnet_led.Sacn.Server.Overlap.{overlapping_sends}
use ha_artnet_led.Sacn.Receiver.{
  SacnReceiver, join, member, subscribe_universe, unsubscribe_universe, connection_made,
}
use ha_artnet_led.Sacn.Receiver.Subscriptions.{joined, subscriptions}

abbrev config : SacnServerConfig
config = record {
  source_name = 72 ∷ 65 ∷ [];
  priority = 100;
  cid = replicate 16 1;
  enable_per_universe_sync = false;
  enable_preview_data = false;
  retransmit_interval = 800;
}

config-IsValidConfig : IsValidConfig config (72 ∷ 65 ∷ [])
unfolding utf8_encode rstrip_nul
config-IsValidConfig = record {
  name_some = omega arith;
  name_short = omega arith;
  name_text = (omega arith, (omega arith, tt));
  name_encoded = refl;
  encoded_short = omega arith;
  name_bare = refl;
  priority_low = omega arith;
  cid_length = refl;
}

abbrev streaming : UniverseState
streaming = record {
  sequence_number = 255;
  last_data = some (0 ∷ 1 ∷ 2 ∷ []);
  stream_task = running_task;
  termination_sent = false;
  unicast_addresses = record { host = 49 ∷ []; port = 5568 } ∷ [];
  pending_data = none;
  last_update_time = 50;
  last_send_time = 60;
}

abbrev idle : UniverseState
idle = record streaming { sequence_number = 0; last_data = none; stream_task = no_task }

abbrev server : SacnServer
server = record {
  running = true;
  socket = true;
  store = idle ∷ streaming ∷ [];
  universes = (7, 0) ∷ (9, 1) ∷ [];
}

server-IsWell : IsWell server
server-IsWell = (
  (omega arith, omega arith, omega arith, (omega arith, omega arith, omega arith, tt)),
  (omega arith, (omega arith, tt)),
)

abbrev frame : Bytes
frame = 0 ∷ 10 ∷ 20 ∷ []

Moves-IsWell_example :
    IsWell
      (stop_server config
        (finish_pending 70 (some 1) (send_dmx_data 65 9 frame server).after)).after
Moves-IsWell_example =
    Moves-IsWell config
      (then_move
        (then_move (then_move (then_move (rest server) (send 65 9 frame server)) (begin 9 _))
          (finish 70 (some 1) _))
        (stop _))
      server-IsWell

overlapping_sends_example :
    let first = (send_dmx_data 65 9 frame server).after in
    let second = (send_dmx_data 65 9 (0 ∷ 99 ∷ []) first).after in
    let over =
      finish_pending 65
        (begin_pending config 9 second).1
        (finish_pending 65 (begin_pending config 9 first).1 second) in
    (b b' : Bytes) × ((begin_pending config 9 first).0 ≡ burst 9 streaming b)
    × ((begin_pending config 9 second).0 ≡ burst 9 streaming b')
    × (deserialize b ≡ ok (packet_of config 9 255 (stream_options config) (processed_data frame)))
    × (deserialize b'
        ≡ ok (packet_of config 9 255 (stream_options config) (processed_data (0 ∷ 99 ∷ []))))
    × (new : UniverseState) × (find 9 over ≡ some (1, new))
    × (new.sequence_number ≡ (255 + 2) % 256)
    × (new.last_data ≡ none)
    × (new.pending_data ≡ none)
overlapping_sends_example =
    overlapping_sends config (72 ∷ 65 ∷ []) 9 1 streaming server frame (0 ∷ 99 ∷ []) 65
      config-IsValidConfig (omega arith) (omega arith) (omega arith) refl refl refl (omega arith)
      (omega arith)

abbrev receiver : SacnReceiver
receiver = record {
  has_callback = true;
  transport = true;
  subscribed_universes = 9 ∷ [];
  own_source_name = some (88 ∷ []);
}

subscriptions_example :
    (member 9 (subscribe_universe 12 receiver).0.subscribed_universes
      ≡ (true || ((9 == 12) && (leb 1 12 && leb 12 63999))))
    × (member 9 (unsubscribe_universe 12 receiver).0.subscribed_universes ≡ (true && not (9 == 12)))
    × ((subscribe_universe 12 receiver).1 ≡ join (get_multicast_address 12) ∷ [])
    × ((unsubscribe_universe 12 receiver).1 ≡ [])
    × ((connection_made receiver).1 ≡ joined (9 ∷ []))
subscriptions_example = subscriptions 12 9 receiver
