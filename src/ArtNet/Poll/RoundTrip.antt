-- ===== src/ArtNet/Poll/RoundTrip.antt =====
-- `ArtPoll`: what arrives of what is sent.
use ha_artnet_led.Base.{
  ◌/◌, ◌%◌, ◌<◌, ◌≡◌, refl, ap, ◌∙◌, Bool, true, false, ◌&&◌, [], ◌∷◌, ◌++◌, arith, if◌then◌else◌,
}
use ha_artnet_led.Base.Result.{ok}
use ha_artnet_led.Base.Bytes.{Bytes, slice}
use ha_artnet_led.ArtNet.Address.{PortAddress, IsAddress, port_address}
use ha_artnet_led.ArtNet.Address.Laws.{port_address-sum, parse-port_address}
use ha_artnet_led.ArtNet.Flags.RoundTrip.{flag-digit, bit_le}
use ha_artnet_led.ArtNet.Codec.{
  Step, returned, next, outcome, pop, consume_int_msb, deserialize_base,
}
use ha_artnet_led.ArtNet.Codec.Laws.{
  append-eq, append_int_msb-eq, serialize_base-eq, header_bytes, deserialize_base_header, msb_word,
  pop_at, after,
}
use ha_artnet_led.ArtNet.Poll.{
  DiagnosticsPriority, dp_unknown, dp_low, dp_med, dp_high, dp_critical, dp_volatile,
  priority_value, priority_of, ArtPoll, op_poll, poll_flags, serialize_poll, read_bounds, read_poll,
  deserialize_poll,
}

-- A packet whose version fits in two bytes and whose bounds fit in the sixteen bits of their fields.
pub record IsPoll (p : ArtPoll) : Type 0 where
  pub version_low : p.protocol_version < 65536
  pub bottom_valid : IsAddress p.target_port_bottom
  pub top_valid : IsAddress p.target_port_top
  pub bottom_low : p.target_port_bottom.net < 8
  pub top_low : p.target_port_top.net < 8

pub priority_of-value :
    (d : DiagnosticsPriority) → (priority_of (priority_value d) ≡ ok d) × (priority_value d < 256)
priority_of-value dp_unknown = (refl, omega arith)
priority_of-value dp_low = (refl, omega arith)
priority_of-value dp_med = (refl, omega arith)
priority_of-value dp_high = (refl, omega arith)
priority_of-value dp_critical = (refl, omega arith)
priority_of-value dp_volatile = (refl, omega arith)

low_address : (a : PortAddress) → IsAddress a → a.net < 8 → port_address a < 65536
low_address a h low = omega (arith, port_address-sum a h)

abbrev poll_wire : ArtPoll → Bytes
poll_wire p =
    header_bytes op_poll
    ++ (p.protocol_version / 256 % 256
        ∷ p.protocol_version % 256
        ∷ poll_flags p
        ∷ priority_value p.diag_priority
        ∷ port_address p.target_port_top / 256 % 256
        ∷ port_address p.target_port_top % 256
        ∷ port_address p.target_port_bottom / 256 % 256
        ∷ port_address p.target_port_bottom % 256
        ∷ [])

poll_flags-lt : (p : ArtPoll) → poll_flags p < 256
poll_flags-lt p =
    let a = bit_le p.enable_targeted_mode in
    let b = bit_le p.enable_vlc_transmission in
    let c = bit_le p.diag_broadcast in
    let d = bit_le p.enable_diagnostics in let e = bit_le p.notify_on_change in omega arith

serialize_poll-wire : (p : ArtPoll) → serialize_poll p ≡ ok (poll_wire p)
unfolding serialize_poll
serialize_poll-wire p =
    rw
      (
        append-eq (poll_flags p) (poll_flags-lt p),
        append-eq (priority_value p.diag_priority) (priority_of-value p.diag_priority).1,
        serialize_base-eq op_poll,
        append_int_msb-eq p.protocol_version,
        append_int_msb-eq (port_address p.target_port_top),
        append_int_msb-eq (port_address p.target_port_bottom),
      )
      refl

read_bounds-wire :
    (p s : ArtPoll)
    → IsPoll p
    → read_bounds (poll_wire p) s 14
      ≡ next tt
          (record s {
            target_port_top = p.target_port_top;
            target_port_bottom = p.target_port_bottom;
          })
          18
unfolding read_bounds slice
read_bounds-wire p s h =
    let w = poll_wire p in
    after (consume_int_msb w) _ (
      msb_word w _ 14 (port_address p.target_port_top) (low_address _ h.top_valid h.top_low)
        (omega arith) refl)
    ∙ after (consume_int_msb w) _ (
        msb_word w _ 16 (port_address p.target_port_bottom)
          (low_address _ h.bottom_valid h.bottom_low) (omega arith) refl)
    ∙ rw
        (
          (parse-port_address p.target_port_top h.top_valid).0,
          (parse-port_address p.target_port_bottom h.bottom_valid).0,
        )
        refl

-- The packet up to the bounds, as the object stands then.
abbrev before_bounds : ArtPoll → ArtPoll → ArtPoll
before_bounds p fresh = record p {
  target_port_top = fresh.target_port_top;
  target_port_bottom = fresh.target_port_bottom;
}

same_test :
    (b : Bool) (x y : Step ArtPoll (Unit {0})) → (if b && true then x else y) ≡ (if b then x else y)
same_test true x y = refl
same_test false x y = refl

read_poll-wire :
    (p fresh : ArtPoll)
    → IsPoll p
    → read_poll (poll_wire p) fresh 0
      ≡ (if p.enable_targeted_mode then next tt p 18 else next tt (before_bounds p fresh) 14)
unfolding read_poll slice
read_poll-wire p fresh h =
    let w = poll_wire p in
    let a = bit_le p.enable_targeted_mode in
    let b = bit_le p.enable_vlc_transmission in
    let c = bit_le p.diag_broadcast in
    let d = bit_le p.enable_diagnostics in
    let e = bit_le p.notify_on_change in
    after (deserialize_base w op_poll) _ (deserialize_base_header op_poll _ fresh 0 (omega arith))
    ∙ after (consume_int_msb w) _
        (msb_word w _ 10 p.protocol_version h.version_low (omega arith) refl)
    ∙ after (pop w) _ (pop_at w _ 12 _ refl)
    ∙ after (pop w) _ (pop_at w _ 13 _ refl)
    ∙ rw
        (
          (priority_of-value p.diag_priority).0,
          flag-digit (poll_flags p) 32 p.enable_targeted_mode (omega arith),
          flag-digit (poll_flags p) 16 p.enable_vlc_transmission (omega arith),
          flag-digit (poll_flags p) 8 p.diag_broadcast (omega arith),
          flag-digit (poll_flags p) 4 p.enable_diagnostics (omega arith),
          flag-digit (poll_flags p) 2 p.notify_on_change (omega arith),
          read_bounds-wire p (before_bounds p fresh) h,
        )
        (same_test p.enable_targeted_mode _ _)

-- A poll whose version and bounds fit in their two bytes (the nets below 8) is serialized, and its
-- deserialization gives back every field; the bounds only for a poll in targeted mode, else those of
-- the object that reads it.
pub deserialize-serialize_poll :
    (p fresh : ArtPoll)
    → IsPoll p
    → (b : Bytes) × (serialize_poll p ≡ ok b)
      × (deserialize_poll b fresh ≡ (
          if p.enable_targeted_mode
          then returned p 18
          else returned
              (record p {
                target_port_top = fresh.target_port_top;
                target_port_bottom = fresh.target_port_bottom;
              })
              14))
unfolding deserialize_poll
deserialize-serialize_poll p fresh h =
    (poll_wire p, serialize_poll-wire p, ap outcome (read_poll-wire p fresh h) ∙ ground arith)
