-- ===== src/ArtNet/IpProg/RoundTrip.antt =====
-- `ArtIpProg` and `ArtIpProgReply`: what arrives of what is sent.
use ha_artnet_led.Base.{
  ℕ, ◌*◌, ◌≡◌, refl, ap, ◌∙◌, [], ◌∷◌, ◌++◌, length, some, arith, bit, drop, get_elem?, zero, suc,
}
use ha_artnet_led.Base.Result.{ok}
use ha_artnet_led.Base.Bytes.{Bytes, slice, slice_field, drop_field}
use ha_artnet_led.ArtNet.Flags.{command_flags}
use ha_artnet_led.ArtNet.Flags.RoundTrip.{flag-digit, bit_le, set_command_flags-command_flags}
use ha_artnet_led.ArtNet.Codec.{
  returned, next, outcome, pop, take_bytes, consume_int_msb, deserialize_base,
}
use ha_artnet_led.ArtNet.Codec.Laws.{
  append-eq, append_int_msb-eq, serialize_base-eq, header_bytes, deserialize_base_header, msb_word,
  take_at, pop_at, after,
}
use ha_artnet_led.ArtNet.IpProg.{
  ArtIpProg, op_ip_prog, serialize_ip_prog, read_ip_prog, deserialize_ip_prog, ArtIpProgReply,
  op_ip_prog_reply, serialize_ip_prog_reply, read_ip_prog_reply, deserialize_ip_prog_reply,
}

get_elem?-drop : (w rest : Bytes) (i b : ℕ) → drop i w ≡ b ∷ rest → get_elem? w i ≡ some b
get_elem?-drop [] rest zero b h = absurd (cc)
get_elem?-drop [] rest (suc i) b h = absurd (cc)
get_elem?-drop (x ∷ w) rest zero b h = ground (arith, h)
get_elem?-drop (x ∷ w) rest (suc i) b h = get_elem?-drop w rest i b h

-- A packet of version 14, whose three addresses have four bytes.
pub record IsIpProg (p : ArtIpProg) : Type 0 where
  pub version_14 : p.protocol_version ≡ 14
  pub ip_length : length p.prog_ip ≡ 4
  pub subnet_length : length p.prog_subnet ≡ 4
  pub gateway_length : length p.prog_gateway ≡ 4

abbrev ip_prog_wire : ArtIpProg → Bytes
ip_prog_wire p =
    header_bytes op_ip_prog
    ++ (0
        ∷ 14
        ∷ 0
        ∷ 0
        ∷ command_flags p.command
        ∷ 0
        ∷ (p.prog_ip ++ (p.prog_subnet ++ (0 ∷ 0 ∷ (p.prog_gateway ++ (0 ∷ 0 ∷ 0 ∷ 0 ∷ []))))))

serialize_ip_prog-wire : (p : ArtIpProg) → IsIpProg p → serialize_ip_prog p ≡ ok (ip_prog_wire p)
unfolding serialize_ip_prog
serialize_ip_prog-wire p h =
    rw
      (
        append-eq (command_flags p.command) (set_command_flags-command_flags p.command).1,
        serialize_base-eq op_ip_prog,
        append_int_msb-eq p.protocol_version,
        h.version_14,
      )
      refl

read_ip_prog-wire :
    (p fresh : ArtIpProg) → IsIpProg p → read_ip_prog (ip_prog_wire p) fresh 0 ≡ next tt p 34
unfolding read_ip_prog
read_ip_prog-wire p fresh h =
    let w : Bytes = ip_prog_wire p in
    let end : Bytes = 0 ∷ 0 ∷ 0 ∷ 0 ∷ [] in
    let behind_subnet : Bytes = 0 ∷ 0 ∷ (p.prog_gateway ++ end) in
    let behind_ip : Bytes = p.prog_subnet ++ behind_subnet in
    let d20 : drop 20 w ≡ behind_ip = drop_field 16 4 w p.prog_ip behind_ip refl h.ip_length in
    let d24 : drop 24 w ≡ behind_subnet =
      drop_field 20 4 w p.prog_subnet behind_subnet d20 h.subnet_length in
    let d26 : drop 26 w ≡ p.prog_gateway ++ end =
      drop_field 24 2 w (0 ∷ 0 ∷ []) (p.prog_gateway ++ end) d24 refl in
    after (deserialize_base w op_ip_prog) _
      (deserialize_base_header op_ip_prog _ fresh 0 (omega arith))
    ∙ after (consume_int_msb w) _
        (msb_word w _ 10 14 (omega arith) (omega arith) (unfold slice in refl))
    ∙ after (pop w) _ (pop_at w _ 14 (command_flags p.command) refl)
    ∙ after (take_bytes w 4) _
        (take_at w _ 16 4 p.prog_ip (slice_field 16 4 w p.prog_ip behind_ip refl h.ip_length))
    ∙ after (take_bytes w 4) _ (
        take_at w _ 20 4 p.prog_subnet
          (slice_field 20 4 w p.prog_subnet behind_subnet d20 h.subnet_length))
    ∙ after (take_bytes w 4) _ (
        take_at w _ 26 4 p.prog_gateway
          (slice_field 26 4 w p.prog_gateway end d26 h.gateway_length))
    ∙ rw ((set_command_flags-command_flags p.command).0, h.version_14) refl

-- A programming packet of version 14, whose three addresses have four bytes, is serialized, and its
-- deserialization gives back every field: the command flag by flag, and the addresses.
pub deserialize-serialize_ip_prog :
    (p fresh : ArtIpProg)
    → IsIpProg p
    → (b : Bytes) × (serialize_ip_prog p ≡ ok b) × (deserialize_ip_prog b fresh ≡ returned p 34)
unfolding deserialize_ip_prog
deserialize-serialize_ip_prog p fresh h =
    (ip_prog_wire p, serialize_ip_prog-wire p h, ap outcome (read_ip_prog-wire p fresh h))

-- The same of the reply.
pub record IsIpProgReply (p : ArtIpProgReply) : Type 0 where
  pub version_14 : p.protocol_version ≡ 14
  pub ip_length : length p.prog_ip ≡ 4
  pub subnet_length : length p.prog_subnet ≡ 4
  pub gateway_length : length p.prog_gateway ≡ 4

abbrev reply_wire : ArtIpProgReply → Bytes
reply_wire p =
    header_bytes op_ip_prog_reply
    ++ (0
        ∷ 14
        ∷ 0
        ∷ 0
        ∷ 0
        ∷ 0
        ∷ (p.prog_ip
            ++ (p.prog_subnet
                ++ (0 ∷ 0 ∷ bit p.dhcp_enabled * 64 ∷ 0 ∷ (p.prog_gateway ++ (0 ∷ 0 ∷ []))))))

serialize_ip_prog_reply-wire :
    (p : ArtIpProgReply) → IsIpProgReply p → serialize_ip_prog_reply p ≡ ok (reply_wire p)
unfolding serialize_ip_prog_reply
serialize_ip_prog_reply-wire p h =
    let b = bit_le p.dhcp_enabled in
    rw
      (
        append-eq (bit p.dhcp_enabled * 64) (omega arith),
        serialize_base-eq op_ip_prog_reply,
        append_int_msb-eq p.protocol_version,
        h.version_14,
      )
      refl

read_ip_prog_reply-wire :
    (p fresh : ArtIpProgReply)
    → IsIpProgReply p
    → read_ip_prog_reply (reply_wire p) fresh 0 ≡ next tt p 34
unfolding read_ip_prog_reply
read_ip_prog_reply-wire p fresh h =
    let w : Bytes = reply_wire p in
    let status : ℕ = bit p.dhcp_enabled * 64 in
    let end : Bytes = 0 ∷ 0 ∷ [] in
    let behind_subnet : Bytes = 0 ∷ 0 ∷ status ∷ 0 ∷ (p.prog_gateway ++ end) in
    let behind_ip : Bytes = p.prog_subnet ++ behind_subnet in
    let d20 : drop 20 w ≡ behind_ip = drop_field 16 4 w p.prog_ip behind_ip refl h.ip_length in
    let d24 : drop 24 w ≡ behind_subnet =
      drop_field 20 4 w p.prog_subnet behind_subnet d20 h.subnet_length in
    let d26 : drop 26 w ≡ status ∷ 0 ∷ (p.prog_gateway ++ end) =
      drop_field 24 2 w (0 ∷ 0 ∷ []) _ d24 refl in
    let d28 : drop 28 w ≡ p.prog_gateway ++ end = drop_field 26 2 w (status ∷ 0 ∷ []) _ d26 refl in
    after (deserialize_base w op_ip_prog_reply) _
      (deserialize_base_header op_ip_prog_reply _ fresh 0 (omega arith))
    ∙ after (consume_int_msb w) _
        (msb_word w _ 10 14 (omega arith) (omega arith) (unfold slice in refl))
    ∙ after (take_bytes w 4) _
        (take_at w _ 16 4 p.prog_ip (slice_field 16 4 w p.prog_ip behind_ip refl h.ip_length))
    ∙ after (take_bytes w 4) _ (
        take_at w _ 20 4 p.prog_subnet
          (slice_field 20 4 w p.prog_subnet behind_subnet d20 h.subnet_length))
    ∙ after (pop w) _ (pop_at w _ 26 status (get_elem?-drop w _ 26 status d26))
    ∙ after (take_bytes w 4) _ (
        take_at w _ 28 4 p.prog_gateway
          (slice_field 28 4 w p.prog_gateway end d28 h.gateway_length))
    ∙ rw
        (
          flag-digit status 64 p.dhcp_enabled (let b = bit_le p.dhcp_enabled in omega arith),
          h.version_14,
        )
        refl

-- A reply of version 14, whose three addresses have four bytes, is serialized, and its
-- deserialization gives back every field.
pub deserialize-serialize_ip_prog_reply :
    (p fresh : ArtIpProgReply)
    → IsIpProgReply p
    → (b : Bytes) × (serialize_ip_prog_reply p ≡ ok b)
      × (deserialize_ip_prog_reply b fresh ≡ returned p 34)
unfolding deserialize_ip_prog_reply
deserialize-serialize_ip_prog_reply p fresh h =
    (reply_wire p, serialize_ip_prog_reply-wire p h, ap outcome (read_ip_prog_reply-wire p fresh h))
