-- ===== src/Sacn/Sync/Lengths.antt =====
-- The lengths that a synchronization packet declares, against its bytes.
use ha_artnet_led.Base.{
  ◌+◌, ◌/◌, ◌%◌, ◌≤◌, ◌≡◌, refl, [], ◌∷◌, ◌++◌, length, drop, replicate, arith, length-append,
  drop-append_eq,
}
use ha_artnet_led.Base.Result.{ok, err, Exc}
use ha_artnet_led.Base.Bytes.{Bytes, slice, pack_b, pack_h, pack_i, unpack_h}
use ha_artnet_led.Sacn.Packet.{deserialize}
use ha_artnet_led.Sacn.Packet.Fields.{slice_after, pack_b-eq, pack_h-eq}
use ha_artnet_led.Sacn.Sync.{SacnSyncPacket, sync_post_init, sync_serialize}

abbrev sync_tail : SacnSyncPacket → Bytes
sync_tail p =
    0x70
    ∷ 88
    ∷ 0
    ∷ 0
    ∷ 0
    ∷ 1
    ∷ (replicate 64 0
        ++ (0
            ∷ 0
            ∷ 0
            ∷ p.sequence_number
            ∷ 0
            ∷ p.sync_address / 256
            ∷ p.sync_address % 256
            ∷ 0x70
            ∷ 11
            ∷ 0x02
            ∷ 0xA1
            ∷ 0
            ∷ 0
            ∷ 0
            ∷ 1
            ∷ 0
            ∷ 0
            ∷ []))

abbrev sync_wire : SacnSyncPacket → Bytes
sync_wire p =
    0
    ∷ 0x10
    ∷ 0
    ∷ 0
    ∷ 0x41
    ∷ 0x53
    ∷ 0x43
    ∷ 0x2d
    ∷ 0x45
    ∷ 0x31
    ∷ 0x2e
    ∷ 0x31
    ∷ 0x37
    ∷ 0
    ∷ 0
    ∷ 0
    ∷ 0x70
    ∷ 126
    ∷ 0
    ∷ 0
    ∷ 0
    ∷ 4
    ∷ (p.cid ++ sync_tail p)

sync_serialize-wire :
    (p : SacnSyncPacket)
    → p.sequence_number ≤ 255
    → p.sync_address ≤ 63999
    → sync_serialize p ≡ ok (sync_wire p)
unfolding sync_serialize
sync_serialize-wire p hs ha =
    rw (pack_b-eq p.sequence_number (omega arith), pack_h-eq p.sync_address (omega arith))
      (unfold pack_h pack_i pack_b in refl)

valid_fields :
    (p q : SacnSyncPacket)
    → sync_post_init p ≡ ok q
    → (p.sequence_number ≤ 255) × (p.sync_address ≤ 63999) × (length p.cid ≡ 16)
unfolding sync_post_init
valid_fields p q h = ground arith

-- A synchronization packet that the constructor accepts is written as 125 bytes. The root, framing
-- and DMP words, at offsets 16, 38 and 115, declare 126, 88 and 11 bytes, where 109, 87 and 10
-- follow; and `SacnPacket.deserialize` refuses the packet as too small.
pub sync_serialize_lengths :
    (p q : SacnSyncPacket)
    → sync_post_init p ≡ ok q
    → (b : Bytes) × (sync_serialize p ≡ ok b)
      × (length b ≡ 125)
      × (unpack_h (slice 16 2 b) ≡ ok (0x7000 + 126))
      × (unpack_h (slice 38 2 b) ≡ ok (0x7000 + 88))
      × (unpack_h (slice 115 2 b) ≡ ok (0x7000 + 11))
      × (deserialize b ≡ err Exc.value_error)
sync_serialize_lengths p q h =
    let (hs, ha, hc) = valid_fields p q h in
    let behind : drop 38 (sync_wire p) ≡ sync_tail p = drop-append_eq 16 p.cid (sync_tail p) hc in
    let total : length (sync_wire p) ≡ 125 = omega (arith, length-append p.cid (sync_tail p)) in
    (
      sync_wire p,
      sync_serialize-wire p hs ha,
      total,
      unfold unpack_h slice in refl,
      unfold unpack_h slice in rw behind,
      rw (slice_after 38 77 2 (sync_wire p) (sync_tail p) behind) (unfold unpack_h slice in refl),
      unfold deserialize in ground (arith, total),
    )
