-- ===== src/Sacn/Sync.antt =====
-- `SacnSyncPacket` of custom_components/dmx/server/sacn_packet.py.
pub mod Lengths
use ha_artnet_led.Base.{ℕ, ◌+◌, List, [], ◌∷◌, ◌++◌, length, replicate, leb, ◌==◌, bit_or}
use ha_artnet_led.Base.Result.{Result, ok, ◌>>=◌, ◌>>◌, check}
use ha_artnet_led.Base.Bytes.{Bytes, pack_b, pack_h, pack_i}
use ha_artnet_led.Sacn.Packet.{
  acn_packet_identifier, root_vector, dmp_vector, dmp_address_type_data_type,
}

pub record SacnSyncPacket : Type 0 where
  pub sequence_number : ℕ
  pub sync_address : ℕ
  pub cid : Bytes

-- `__post_init__`
unfoldable pub sync_post_init : SacnSyncPacket → Result SacnSyncPacket
sync_post_init p = do
  check (leb p.sequence_number 255)
  check (leb p.sync_address 63999)
  check (length p.cid == 16)
  ok p

-- `SacnSyncPacket.serialize`
unfoldable pub sync_serialize : SacnSyncPacket → Result Bytes
sync_serialize p = do
  let dmp_layer_length : ℕ = 11
  let framing_layer_length = 77 + dmp_layer_length
  let root_layer_length = 38 + framing_layer_length
  preamble ← pack_h 0x0010
  postamble ← pack_h 0x0000
  root_flength ← pack_h (bit_or 0x7000 root_layer_length)
  vector_root ← pack_i root_vector
  framing_flength ← pack_h (bit_or 0x7000 framing_layer_length)
  vector_framing ← pack_i 0x00000001
  prio ← pack_b 0
  reserved ← pack_h 0x0000
  seq ← pack_b p.sequence_number
  opts ← pack_b 0x00
  address ← pack_h p.sync_address
  dmp_flength ← pack_h (bit_or 0x7000 dmp_layer_length)
  vector_dmp ← pack_b dmp_vector
  address_type ← pack_b dmp_address_type_data_type
  first_address ← pack_h 0x0000
  increment ← pack_h 0x0001
  value_count ← pack_h 0x0000
  ok (
      preamble
      ++ (postamble
          ++ (acn_packet_identifier
              ++ (root_flength
                  ++ (vector_root
                      ++ (p.cid
                          ++ (framing_flength
                              ++ (vector_framing
                                  ++ (replicate 64 0
                                      ++ (prio
                                          ++ (reserved
                                              ++ (seq
                                                  ++ (opts
                                                      ++ (address
                                                          ++ (dmp_flength
                                                            ++ (vector_dmp
                                                            ++ (address_type
                                                            ++ (first_address
                                                            ++ (increment
                                                            ++ value_count)))))))))))))))))))
