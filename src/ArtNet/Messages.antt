-- ===== src/ArtNet/Messages.antt =====
-- `ArtDiagData`, `ArtTimeCode`, `ArtCommand` and `ArtTrigger` of
-- custom_components/dmx/server/__init__.py.
pub mod Strings
pub mod RoundTrip
pub mod Texts
use ha_artnet_led.Base.{
  ℕ, ◌+◌, ◌*◌, List, [], ◌∷◌, ◌++◌, ◌==◌, ltb, leb, length, replicate, if◌then◌else◌,
}
use ha_artnet_led.Base.Result.{Result, ok, err, Exc, check, ◌>>=◌ as ◌>>=ʳ◌, ◌>>◌ as ◌>>ʳ◌}
use ha_artnet_led.Base.Bytes.{Bytes}
use ha_artnet_led.Base.Text.{Text}
use ha_artnet_led.ArtNet.Poll.{DiagnosticsPriority, priority_value, priority_of}
use ha_artnet_led.ArtNet.Codec.{
  Reader, Outcome, outcome, assign, skip, lift, raise_unless, ◌>>=◌, ◌>>◌, append, append_int_msb,
  append_str, serialize_base, pop, take_bytes, consume_int_msb, consume_hex_number_msb, consume_str,
  deserialize_base,
}

pub record ArtDiagData : Type 0 where
  pub protocol_version : ℕ
  pub diag_priority : DiagnosticsPriority
  pub logical_port : ℕ
  pub text : Text

abbrev pub op_diag_data : ℕ
op_diag_data = 0x2300

-- `ArtDiagData.__init__`
unfoldable pub make_diag_data : ℕ → DiagnosticsPriority → ℕ → Text → Result ArtDiagData
make_diag_data protocol_version diag_priority logical_port text =
    check (ltb (length text) 512)
    >>ʳ ok (record {
      protocol_version = protocol_version;
      diag_priority = diag_priority;
      logical_port = logical_port;
      text = text;
    })

-- `ArtDiagData.serialize`
unfoldable pub serialize_diag_data : ArtDiagData → Result Bytes
serialize_diag_data d = append (priority_value d.diag_priority) >>=ʳ λ priority.
    append d.logical_port >>=ʳ λ port. append_str d.text (length d.text + 1) >>=ʳ λ text. ok (
      serialize_base op_diag_data
      ++ (append_int_msb d.protocol_version
          ++ (0x00 ∷ (priority ++ (port ++ (0x00 ∷ (append_int_msb (length d.text) ++ text)))))))

-- `ArtDiagData.deserialize`
unfoldable pub read_diag_data : Bytes → Reader ArtDiagData (Unit {0})
read_diag_data packet = do
  deserialize_base packet op_diag_data
  version ← consume_int_msb packet
  assign (λ s. record s { protocol_version = version })
  raise_unless (version == 14) Exc.serialization_error
  skip 1
  value ← pop packet
  priority ← lift (priority_of value)
  assign (λ s. record s { diag_priority = priority })
  port ← pop packet
  assign (λ s. record s { logical_port = port })
  skip 1
  text_length ← consume_int_msb packet
  text ← consume_str packet (text_length + 1)
  assign (λ s. record s { text = text })

unfoldable pub deserialize_diag_data : Bytes → ArtDiagData → Outcome ArtDiagData
unfolding read_diag_data
deserialize_diag_data packet self = outcome (read_diag_data packet self 0)

pub data TimeCodeType : Type 0 where
  film ebu df smpte : TimeCodeType

abbrev pub time_code_value : TimeCodeType → ℕ
time_code_value film = 0
time_code_value ebu = 1
time_code_value df = 2
time_code_value smpte = 3

-- `TimeCodeType(value)`
abbrev pub time_code_of : ℕ → Result TimeCodeType
time_code_of value =
    if value == 0
    then ok film
    else (if value == 1
        then ok ebu
        else (if value == 2 then ok df else (if value == 3 then ok smpte else err Exc.value_error)))

pub record ArtTimeCode : Type 0 where
  pub protocol_version : ℕ
  pub frames : ℕ
  pub seconds : ℕ
  pub minutes : ℕ
  pub hours : ℕ
  pub type : TimeCodeType

abbrev pub op_time_code : ℕ
op_time_code = 0x9700

-- `ArtTimeCode.__init__`
unfoldable pub make_time_code : ℕ → ℕ → ℕ → ℕ → ℕ → TimeCodeType → Result ArtTimeCode
make_time_code protocol_version frames seconds minutes hours type =
    check (leb frames 29)
    >>ʳ (check (leb seconds 59)
        >>ʳ (check (leb minutes 59)
            >>ʳ (check (leb hours 23)
                >>ʳ ok (record {
                  protocol_version = protocol_version;
                  frames = frames;
                  seconds = seconds;
                  minutes = minutes;
                  hours = hours;
                  type = type;
                }))))

-- `ArtTimeCode.serialize`
unfoldable pub serialize_time_code : ArtTimeCode → Result Bytes
serialize_time_code t = append t.frames >>=ʳ λ frames. append t.seconds >>=ʳ λ seconds.
    append t.minutes >>=ʳ λ minutes. append t.hours >>=ʳ λ hours.
    append (time_code_value t.type) >>=ʳ λ type. ok (
      serialize_base op_time_code
      ++ (append_int_msb t.protocol_version
          ++ (replicate 2 0x00 ++ (frames ++ (seconds ++ (minutes ++ (hours ++ type)))))))

-- `ArtTimeCode.deserialize`
unfoldable pub read_time_code : Bytes → Reader ArtTimeCode (Unit {0})
read_time_code packet = do
  deserialize_base packet op_time_code
  version ← consume_int_msb packet
  assign (λ s. record s { protocol_version = version })
  raise_unless (version == 14) Exc.serialization_error
  skip 2
  frames ← pop packet
  assign (λ s. record s { frames = frames })
  seconds ← pop packet
  assign (λ s. record s { seconds = seconds })
  minutes ← pop packet
  assign (λ s. record s { minutes = minutes })
  hours ← pop packet
  assign (λ s. record s { hours = hours })
  value ← pop packet
  type ← lift (time_code_of value)
  assign (λ s. record s { type = type })

unfoldable pub deserialize_time_code : Bytes → ArtTimeCode → Outcome ArtTimeCode
unfolding read_time_code
deserialize_time_code packet self = outcome (read_time_code packet self 0)

pub record ArtCommand : Type 0 where
  pub protocol_version : ℕ
  pub esta : ℕ
  pub command : Text

abbrev pub op_command : ℕ
op_command = 0x2400

-- `ArtCommand.__init__`
unfoldable pub make_command : ℕ → ℕ → Text → Result ArtCommand
make_command protocol_version esta command =
    check (ltb (length command) 512)
    >>ʳ ok (record { protocol_version = protocol_version; esta = esta; command = command })

-- `ArtCommand.serialize`
unfoldable pub serialize_command : ArtCommand → Result Bytes
serialize_command c = append_str c.command 512 >>=ʳ λ text. ok (
    serialize_base op_command
    ++ (append_int_msb c.protocol_version ++ (append_int_msb c.esta ++ text)))

-- `ArtCommand.deserialize`
unfoldable pub read_command : Bytes → Reader ArtCommand (Unit {0})
read_command packet = do
  deserialize_base packet op_command
  version ← consume_int_msb packet
  assign (λ s. record s { protocol_version = version })
  raise_unless (version == 14) Exc.serialization_error
  esta ← consume_int_msb packet
  assign (λ s. record s { esta = esta })
  command ← consume_str packet 512
  assign (λ s. record s { command = command })

unfoldable pub deserialize_command : Bytes → ArtCommand → Outcome ArtCommand
unfolding read_command
deserialize_command packet self = outcome (read_command packet self 0)

pub record ArtTrigger : Type 0 where
  pub protocol_version : ℕ
  pub oem : ℕ
  pub key : ℕ
  pub sub_key : ℕ
  pub payload : Bytes

abbrev pub op_trigger : ℕ
op_trigger = 0x9900

-- `ArtTrigger.__init__`
unfoldable pub make_trigger : ℕ → ℕ → ℕ → ℕ → Bytes → Result ArtTrigger
make_trigger protocol_version oem key sub_key payload =
    check (length payload == 512)
    >>ʳ ok (record {
      protocol_version = protocol_version;
      oem = oem;
      key = key;
      sub_key = sub_key;
      payload = payload;
    })

-- `ArtTrigger.serialize`
unfoldable pub serialize_trigger : ArtTrigger → Result Bytes
serialize_trigger t = append t.key >>=ʳ λ key. append t.sub_key >>=ʳ λ sub_key. ok (
    serialize_base op_trigger
    ++ (append_int_msb t.protocol_version
        ++ (replicate 2 0x00 ++ (append_int_msb t.oem ++ (key ++ (sub_key ++ t.payload))))))

-- `ArtTrigger.deserialize`, which checks the version only when it has read the manufacturer.
unfoldable pub read_trigger : Bytes → Reader ArtTrigger (Unit {0})
read_trigger packet = do
  deserialize_base packet op_trigger
  version ← consume_int_msb packet
  assign (λ s. record s { protocol_version = version })
  skip 2
  oem ← consume_hex_number_msb packet
  assign (λ s. record s { oem = oem })
  raise_unless (version == 14) Exc.serialization_error
  key ← pop packet
  assign (λ s. record s { key = key })
  sub_key ← pop packet
  assign (λ s. record s { sub_key = sub_key })
  payload ← take_bytes packet 512
  assign (λ s. record s { payload = payload })

unfoldable pub deserialize_trigger : Bytes → ArtTrigger → Outcome ArtTrigger
unfolding read_trigger
deserialize_trigger packet self = outcome (read_trigger packet self 0)
