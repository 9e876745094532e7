-- ===== src/Sacn/Tests.antt =====
-- The theorems on sACN at concrete packets, servers and receivers.
mod Streams
use ha_artnet_led.Base.{
  ℕ, ◌+◌, ◌%◌, ◌≤◌, ◌<◌, ◌-◌, ◌≡◌, ◌≢◌, refl, Bool, true, false, not, ◌&&◌, ◌||◌, List, [], ◌∷◌,
  ◌++◌, Option, some, none, arith, length, get_elem?, get_or, drop, leb, max, replicate,
  if◌then◌else◌, ◌==◌,
}
use ha_artnet_led.Base.Result.{Result, ok, err, Exc}
use ha_artnet_led.Base.Bytes.{Bytes, slice, unpack_b, unpack_i, unpack_h, rstrip_nul}
use ha_artnet_led.Base.Text.{utf8_encode}
use ha_artnet_led.Sacn.Packet.{
  SacnPacket, SacnOptions, serialize, deserialize, post_init, clear_start_code, bytes_eq,
  acn_packet_identifier, root_vector, framing_vector, dmp_vector, get_multicast_address,
  set_dmx_channel,
}
use ha_artnet_led.Sacn.Packet.Fields.{IsValid}
use ha_artnet_led.Sacn.Packet.RoundTrip.{deserialize-serialize}
use ha_artnet_led.Sacn.Packet.Layout.{
  DeclaresRest, serialize_lengths, get_multicast_address-injective,
}
use ha_artnet_led.Sacn.Packet.Accepts.{IsConstructed, deserialize_sound}
use ha_artnet_led.Sacn.Packet.Fails.{Expected, deserialize_errors}
use ha_artnet_led.Sacn.Packet.Channels.{set_dmx_channel_writes}
use ha_artnet_led.Sacn.Sync.{SacnSyncPacket, sync_post_init, sync_serialize}
use ha_artnet_led.Sacn.Sync.Lengths.{sync_serialize_lengths}

abbrev desk : SacnPacket
desk = record {
  source_name = 72 ∷ 65 ∷ [];
  priority = 100;
  universe = 1;
  sequence_number = 9;
  options = record {
    preview_data = false;
    stream_terminated = false;
    force_synchronization = true;
  };
  cid = replicate 16 1;
  dmx_data = 0 ∷ 255 ∷ 128 ∷ [];
}

desk-IsValid : IsValid desk
desk-IsValid = record {
  name_some = omega arith;
  name_short = omega arith;
  name_text = (omega arith, (omega arith, tt));
  priority_low = omega arith;
  universe_pos = omega arith;
  universe_low = omega arith;
  sequence_low = omega arith;
  cid_length = refl;
  data_some = omega arith;
  data_short = omega arith;
}

desk_name : utf8_encode desk.source_name ≡ ok (72 ∷ 65 ∷ [])
unfolding utf8_encode
desk_name = refl

deserialize-serialize_example :
    (b : Bytes) × (serialize desk ≡ ok b)
    × (deserialize b
        ≡ post_init (record desk {
          source_name = rstrip_nul desk.source_name;
          dmx_data = clear_start_code desk.dmx_data;
        }))
deserialize-serialize_example =
    deserialize-serialize desk (72 ∷ 65 ∷ []) desk-IsValid desk_name (omega arith)

serialize_lengths_example :
    (b : Bytes) × (serialize desk ≡ ok b)
    × (length b ≡ 125 + 3)
    × DeclaresRest 16 b
    × DeclaresRest 38 b
    × DeclaresRest 115 b
serialize_lengths_example = serialize_lengths desk (72 ∷ 65 ∷ []) desk-IsValid desk_name

desk_bytes : (b : Bytes) × (deserialize b ≡ ok desk)
unfolding post_init rstrip_nul
desk_bytes =
    let (b, _, back) =
      deserialize-serialize desk (72 ∷ 65 ∷ []) desk-IsValid desk_name (omega arith) in
    (b, back)

deserialize_sound_example :
    (126 ≤ length desk_bytes.0)
    × (bytes_eq (slice 4 12 desk_bytes.0) acn_packet_identifier ≡ true)
    × (unpack_i (slice 18 4 desk_bytes.0) ≡ ok root_vector)
    × (unpack_i (slice 40 4 desk_bytes.0) ≡ ok framing_vector)
    × (unpack_b (slice 117 1 desk_bytes.0) ≡ ok dmp_vector)
    × IsConstructed desk
deserialize_sound_example = deserialize_sound desk_bytes.0 desk desk_bytes.1

deserialize_errors_example : Expected Exc.value_error
unfolding deserialize
deserialize_errors_example = deserialize_errors (1 ∷ 2 ∷ []) Exc.value_error refl

abbrev sync : SacnSyncPacket
sync = record { sequence_number = 3; sync_address = 7; cid = replicate 16 1 }

sync_accepted : sync_post_init sync ≡ ok sync
unfolding sync_post_init
sync_accepted = refl

sync_serialize_lengths_example :
    (b : Bytes) × (sync_serialize sync ≡ ok b)
    × (length b ≡ 125)
    × (unpack_h (slice 16 2 b) ≡ ok (0x7000 + 126))
    × (unpack_h (slice 38 2 b) ≡ ok (0x7000 + 88))
    × (unpack_h (slice 115 2 b) ≡ ok (0x7000 + 11))
    × (deserialize b ≡ err Exc.value_error)
sync_serialize_lengths_example = sync_serialize_lengths sync sync sync_accepted
