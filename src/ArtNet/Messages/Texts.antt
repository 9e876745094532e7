-- ===== src/ArtNet/Messages/Texts.antt =====
-- `ArtDiagData` and `ArtCommand`: what arrives of what is sent.
use ha_artnet_led.Base.{
  ℕ, ◌+◌, ◌-◌, ◌/◌, ◌%◌, ◌<◌, ◌≤◌, ◌≡◌, refl, ap, ◌∙◌, ◌∷◌, ◌++◌, All, length, length-append,
  length-replicate, replicate, take_all, arith,
}
use ha_artnet_led.Base.Result.{ok}
use ha_artnet_led.Base.Bytes.{Bytes, slice}
use ha_artnet_led.Base.Text.{Text}
use ha_artnet_led.ArtNet.Codec.{
  returned, next, outcome, pop, consume_int_msb, consume_str, deserialize_base,
}
use ha_artnet_led.ArtNet.Codec.Laws.{
  append-eq, append_int_msb-eq, serialize_base-eq, header_bytes, deserialize_base_header, msb_word,
  pop_at, after,
}
use ha_artnet_led.ArtNet.Poll.{priority_value}
use ha_artnet_led.ArtNet.Poll.RoundTrip.{priority_of-value}
use ha_artnet_led.ArtNet.Messages.{
  ArtDiagData, op_diag_data, serialize_diag_data, read_diag_data, deserialize_diag_data, ArtCommand,
  op_command, serialize_command, read_command, deserialize_command,
}
use ha_artnet_led.ArtNet.Messages.Strings.{
  IsPlain, append_str-eq, arriving, arriving_whole, decode_str-padded, str_at,
}

-- A command of version 14 for a manufacturer of two bytes, in ASCII without NUL.
pub record IsCommand (c : ArtCommand) : Type 0 where
  pub version_14 : c.protocol_version ≡ 14
  pub esta_low : c.esta < 65536
  pub command_short : length c.command < 512
  pub command_plain : All IsPlain c.command

abbrev command_text : ArtCommand → Bytes
command_text c = c.command ++ replicate (512 - length c.command) 0

abbrev command_wire : ArtCommand → Bytes
command_wire c =
    header_bytes op_command ++ (0 ∷ 14 ∷ c.esta / 256 % 256 ∷ c.esta % 256 ∷ command_text c)

serialize_command-wire : (c : ArtCommand) → IsCommand c → serialize_command c ≡ ok (command_wire c)
unfolding serialize_command
serialize_command-wire c h =
    rw
      (
        append_str-eq c.command 512 h.command_plain h.command_short,
        serialize_base-eq op_command,
        append_int_msb-eq c.protocol_version,
        append_int_msb-eq c.esta,
        h.version_14,
      )
      refl

length-padded : (t : Text) (n : ℕ) → length t ≤ n → length (t ++ replicate (n - length t) 0) ≡ n
length-padded t n h = omega (
  arith,
  length-append t (replicate (n - length t) 0),
  length-replicate {0} {A = ℕ} (n - length t) 0,
)

read_command-wire :
    (c fresh : ArtCommand)
    → IsCommand c
    → read_command (command_wire c) fresh 0
      ≡ next tt (record c { command = arriving c.command 512 }) 526
unfolding read_command slice
read_command-wire c fresh h =
    let w : Bytes = command_wire c in
    let l = length-padded c.command 512 (omega (arith, h.command_short)) in
    after (deserialize_base w op_command) _
      (deserialize_base_header op_command _ fresh 0 (omega arith))
    ∙ after (consume_int_msb w) _ (msb_word w _ 10 14 (omega arith) (omega arith) refl)
    ∙ after (consume_int_msb w) _ (msb_word w _ 12 c.esta h.esta_low (omega arith) refl)
    ∙ after (consume_str w 512) _ (
        str_at w _ 14 512 (command_text c) (arriving c.command 512)
          (take_all 512 (command_text c) (omega (arith, l)))
          (decode_str-padded c.command (512 - length c.command) h.command_plain
            ∙ arriving_whole c.command 512))
    ∙ rw h.version_14 refl

-- A command of version 14 in ASCII without NUL is serialized, and its deserialization gives back
-- every field; but an empty command arrives as 512 NULs.
pub deserialize-serialize_command :
    (c fresh : ArtCommand)
    → IsCommand c
    → (b : Bytes) × (serialize_command c ≡ ok b)
      × (deserialize_command b fresh ≡ returned (record c { command = arriving c.command 512 }) 526)
unfolding deserialize_command
deserialize-serialize_command c fresh h =
    (command_wire c, serialize_command-wire c h, ap outcome (read_command-wire c fresh h))

-- Diagnostics of version 14, in ASCII without NUL.
pub record IsDiagData (d : ArtDiagData) : Type 0 where
  pub version_14 : d.protocol_version ≡ 14
  pub port_low : d.logical_port < 256
  pub text_short : length d.text < 512
  pub text_plain : All IsPlain d.text

abbrev diag_text : ArtDiagData → Bytes
diag_text d = d.text ++ replicate (length d.text + 1 - length d.text) 0

abbrev diag_data_wire : ArtDiagData → Bytes
diag_data_wire d =
    header_bytes op_diag_data
    ++ (0
        ∷ 14
        ∷ 0
        ∷ priority_value d.diag_priority
        ∷ d.logical_port
        ∷ 0
        ∷ length d.text / 256 % 256
        ∷ length d.text % 256
        ∷ diag_text d)

serialize_diag_data-wire :
    (d : ArtDiagData) → IsDiagData d → serialize_diag_data d ≡ ok (diag_data_wire d)
unfolding serialize_diag_data
serialize_diag_data-wire d h =
    rw
      (
        append-eq (priority_value d.diag_priority) (priority_of-value d.diag_priority).1,
        append-eq d.logical_port h.port_low,
        append_str-eq d.text (length d.text + 1) h.text_plain (omega arith),
        serialize_base-eq op_diag_data,
        append_int_msb-eq d.protocol_version,
        append_int_msb-eq (length d.text),
        h.version_14,
      )
      refl

read_diag_data-wire :
    (d fresh : ArtDiagData)
    → IsDiagData d
    → read_diag_data (diag_data_wire d) fresh 0
      ≡ next tt (record d { text = arriving d.text 1 }) (18 + (length d.text + 1))
unfolding read_diag_data slice
read_diag_data-wire d fresh h =
    let w : Bytes = diag_data_wire d in
    let n : ℕ = length d.text + 1 in
    let l = length-padded d.text n (omega arith) in
    let one : n - length d.text ≡ 1 = omega arith in
    after (deserialize_base w op_diag_data) _
      (deserialize_base_header op_diag_data _ fresh 0 (omega arith))
    ∙ after (consume_int_msb w) _ (msb_word w _ 10 14 (omega arith) (omega arith) refl)
    ∙ after (pop w) _ (pop_at w _ 13 _ refl)
    ∙ rw (priority_of-value d.diag_priority).0 (
        after (pop w) _ (pop_at w _ 14 _ refl)
        ∙ after (consume_int_msb w) _
            (msb_word w _ 16 (length d.text) (omega (arith, h.text_short)) (omega arith) refl)
        ∙ after (consume_str w n) _ (
            str_at w _ 18 n (diag_text d) (arriving d.text 1)
              (take_all n (diag_text d) (omega (arith, l)))
              (decode_str-padded d.text (n - length d.text) h.text_plain
                ∙ ap (arriving d.text) one))
        ∙ rw h.version_14 refl)

-- Diagnostics of version 14 in ASCII without NUL are serialized, and their deserialization gives
-- back every field; but an empty text arrives as one NUL.
pub deserialize-serialize_diag_data :
    (d fresh : ArtDiagData)
    → IsDiagData d
    → (b : Bytes) × (serialize_diag_data d ≡ ok b)
      × (deserialize_diag_data b fresh
          ≡ returned (record d { text = arriving d.text 1 }) (18 + (length d.text + 1)))
unfolding deserialize_diag_data
deserialize-serialize_diag_data d fresh h =
    (diag_data_wire d, serialize_diag_data-wire d h, ap outcome (read_diag_data-wire d fresh h))
