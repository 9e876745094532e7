-- ===== src/ArtNet/Messages/RoundTrip.antt =====
-- `ArtTimeCode` and `ArtTrigger`: what arrives of what is sent.
use ha_artnet_led.Base.{
  ℕ, ◌+◌, ◌/◌, ◌%◌, ◌<◌, ◌≤◌, ◌≡◌, refl, ap, ◌∙◌, false, [], ◌∷◌, ◌++◌, length, take_all, arith,
  ltb,
}
use ha_artnet_led.Base.Result.{ok}
use ha_artnet_led.Base.Bytes.{Bytes, slice}
use ha_artnet_led.ArtNet.Codec.{
  returned, next, outcome, pop, take_bytes, consume_int_msb, consume_hex_number_msb, hex_msb,
  deserialize_base,
}
use ha_artnet_led.ArtNet.Codec.Laws.{
  append-eq, append_int_msb-eq, serialize_base-eq, header_bytes, deserialize_base_header, msb_word,
  take_at, pop_at, after,
}
use ha_artnet_led.ArtNet.Messages.{
  TimeCodeType, film, ebu, df, smpte, time_code_value, time_code_of, ArtTimeCode, op_time_code,
  serialize_time_code, read_time_code, deserialize_time_code, ArtTrigger, op_trigger,
  serialize_trigger, read_trigger, deserialize_trigger,
}

-- A time code of version 14 whose numbers are bytes, as those that the constructor accepts are.
pub record IsTimeCode (t : ArtTimeCode) : Type 0 where
  pub version_14 : t.protocol_version ≡ 14
  pub frames_low : t.frames < 256
  pub seconds_low : t.seconds < 256
  pub minutes_low : t.minutes < 256
  pub hours_low : t.hours < 256

time_code_of-value :
    (t : TimeCodeType) → (time_code_of (time_code_value t) ≡ ok t) × (time_code_value t < 256)
time_code_of-value film = (refl, omega arith)
time_code_of-value ebu = (refl, omega arith)
time_code_of-value df = (refl, omega arith)
time_code_of-value smpte = (refl, omega arith)

abbrev time_code_wire : ArtTimeCode → Bytes
time_code_wire t =
    header_bytes op_time_code
    ++ (0 ∷ 14 ∷ 0 ∷ 0 ∷ t.frames ∷ t.seconds ∷ t.minutes ∷ t.hours ∷ time_code_value t.type ∷ [])

serialize_time_code-wire :
    (t : ArtTimeCode) → IsTimeCode t → serialize_time_code t ≡ ok (time_code_wire t)
unfolding serialize_time_code
serialize_time_code-wire t h =
    rw
      (
        append-eq t.frames h.frames_low,
        append-eq t.seconds h.seconds_low,
        append-eq t.minutes h.minutes_low,
        append-eq t.hours h.hours_low,
        append-eq (time_code_value t.type) (time_code_of-value t.type).1,
        serialize_base-eq op_time_code,
        append_int_msb-eq t.protocol_version,
        h.version_14,
      )
      refl

read_time_code-wire :
    (t fresh : ArtTimeCode)
    → IsTimeCode t
    → read_time_code (time_code_wire t) fresh 0 ≡ next tt t 19
unfolding read_time_code slice
read_time_code-wire t fresh h =
    let w : Bytes = time_code_wire t in
    after (deserialize_base w op_time_code) _
      (deserialize_base_header op_time_code _ fresh 0 (omega arith))
    ∙ after (consume_int_msb w) _ (msb_word w _ 10 14 (omega arith) (omega arith) refl)
    ∙ after (pop w) _ (pop_at w _ 14 _ refl)
    ∙ after (pop w) _ (pop_at w _ 15 _ refl)
    ∙ after (pop w) _ (pop_at w _ 16 _ refl)
    ∙ after (pop w) _ (pop_at w _ 17 _ refl)
    ∙ after (pop w) _ (pop_at w _ 18 _ refl)
    ∙ rw ((time_code_of-value t.type).0, h.version_14) refl

-- A time code of version 14 is serialized, and its deserialization gives back every field.
pub deserialize-serialize_time_code :
    (t fresh : ArtTimeCode)
    → IsTimeCode t
    → (b : Bytes) × (serialize_time_code t ≡ ok b) × (deserialize_time_code b fresh ≡ returned t 19)
unfolding deserialize_time_code
deserialize-serialize_time_code t fresh h =
    (time_code_wire t, serialize_time_code-wire t h, ap outcome (read_time_code-wire t fresh h))

-- A trigger of version 14 whose key and sub-key are bytes, with its 512 bytes.
pub record IsTrigger (t : ArtTrigger) : Type 0 where
  pub version_14 : t.protocol_version ≡ 14
  pub oem_low : t.oem < 65536
  pub key_low : t.key < 256
  pub sub_key_low : t.sub_key < 256
  pub payload_length : length t.payload ≡ 512

abbrev trigger_wire : ArtTrigger → Bytes
trigger_wire t =
    header_bytes op_trigger
    ++ (0 ∷ 14 ∷ 0 ∷ 0 ∷ t.oem / 256 % 256 ∷ t.oem % 256 ∷ t.key ∷ t.sub_key ∷ t.payload)

serialize_trigger-wire : (t : ArtTrigger) → IsTrigger t → serialize_trigger t ≡ ok (trigger_wire t)
unfolding serialize_trigger
serialize_trigger-wire t h =
    rw
      (
        append-eq t.key h.key_low,
        append-eq t.sub_key h.sub_key_low,
        serialize_base-eq op_trigger,
        append_int_msb-eq t.protocol_version,
        append_int_msb-eq t.oem,
        h.version_14,
      )
      refl

-- The digits of both bytes make up the number.
hex_at :
    {S : Type 0} (packet : Bytes) (s : S) (i v : ℕ)
    → v < 65536
    → i + 2 ≤ length packet
    → slice i 2 packet ≡ v / 256 % 256 ∷ v % 256 ∷ []
    → consume_hex_number_msb packet s i ≡ next v s (i + 2)
unfolding consume_hex_number_msb
hex_at packet s i v hv long h =
    let short : ltb (length packet) (i + 2) ≡ false = ground (arith, long) in
    let e : hex_msb (v / 256 % 256 ∷ v % 256 ∷ []) ≡ v = omega arith in
    rw (short, h) (ap (λ (n : ℕ). next n s (i + 2)) e)

read_trigger-wire :
    (t fresh : ArtTrigger) → IsTrigger t → read_trigger (trigger_wire t) fresh 0 ≡ next tt t 530
unfolding read_trigger slice
read_trigger-wire t fresh h =
    let w : Bytes = trigger_wire t in
    after (deserialize_base w op_trigger) _
      (deserialize_base_header op_trigger _ fresh 0 (omega arith))
    ∙ after (consume_int_msb w) _ (msb_word w _ 10 14 (omega arith) (omega arith) refl)
    ∙ after (consume_hex_number_msb w) _ (hex_at w _ 14 t.oem h.oem_low (omega arith) refl)
    ∙ after (pop w) _ (pop_at w _ 16 _ refl)
    ∙ after (pop w) _ (pop_at w _ 17 _ refl)
    ∙ after (take_bytes w 512) _
        (take_at w _ 18 512 t.payload (take_all 512 t.payload (omega (arith, h.payload_length))))
    ∙ rw h.version_14 refl

-- A trigger of version 14, with a key and a sub-key in a byte and 512 bytes of payload, is
-- serialized, and its deserialization gives back every field.
pub deserialize-serialize_trigger :
    (t fresh : ArtTrigger)
    → IsTrigger t
    → (b : Bytes) × (serialize_trigger t ≡ ok b) × (deserialize_trigger b fresh ≡ returned t 530)
unfolding deserialize_trigger
deserialize-serialize_trigger t fresh h =
    (trigger_wire t, serialize_trigger-wire t h, ap outcome (read_trigger-wire t fresh h))
