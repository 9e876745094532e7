-- ===== src/ArtNet/Tests.antt =====
-- The theorems on Art-Net at concrete addresses and packets.
mod Packets
use ha_artnet_led.Base.{ℕ, ◌%◌, ◌<◌, ◌≡◌, ◌↔◌, [], ◌∷◌, arith, ltb}
use ha_artnet_led.Base.Result.{ok}
use ha_artnet_led.Base.Bytes.{Bytes}
use ha_artnet_led.ArtNet.Address.{
  PortAddress, IsAddress, port_address, set_port_address, parse, address_lt,
}
use ha_artnet_led.ArtNet.Address.Laws.{
  parse-port_address, port_address-parse, address_lt-port_address,
}
use ha_artnet_led.ArtNet.Codec.{returned}
use ha_artnet_led.ArtNet.Dmx.{ArtDmx, serialize_dmx, deserialize_dmx}
use ha_artnet_led.ArtNet.Dmx.RoundTrip.{
  IsDmx, received_address, deserialize-serialize_dmx, dmx_address_arrives,
}

abbrev house : PortAddress
house = record { net = 1; sub_net = 2; universe = 3 }

abbrev stage : PortAddress
stage = record { net = 1; sub_net = 3; universe = 0 }

house-IsAddress : IsAddress house
house-IsAddress = record {
  net_low = omega arith;
  sub_net_low = omega arith;
  universe_low = omega arith;
}

stage-IsAddress : IsAddress stage
stage-IsAddress = record {
  net_low = omega arith;
  sub_net_low = omega arith;
  universe_low = omega arith;
}

abbrev two_channels : ArtDmx
two_channels = record {
  protocol_version = 14;
  sequence_number = 7;
  physical = 0;
  address = house;
  payload = 255 ∷ 128 ∷ [];
}

two_channels-IsDmx : IsDmx two_channels
two_channels-IsDmx = record {
  version_low = omega arith;
  sequence_low = omega arith;
  physical_low = omega arith;
  address_valid = house-IsAddress;
  payload_short = omega arith;
}

abbrev fresh : ArtDmx
fresh = record {
  protocol_version = 14;
  sequence_number = 0;
  physical = 0;
  address = record { net = 0; sub_net = 0; universe = 0 };
  payload = 0 ∷ 0 ∷ [];
}

parse-port_address_example :
    (set_port_address (port_address house) ≡ house) × (parse (port_address house) ≡ ok house)
parse-port_address_example = parse-port_address house house-IsAddress

address_lt-port_address_example :
    address_lt house stage ≡ ltb (port_address house) (port_address stage)
address_lt-port_address_example =
    address_lt-port_address house stage house-IsAddress stage-IsAddress

deserialize-serialize_dmx_example :
    (b : Bytes) × (serialize_dmx two_channels ≡ ok b)
    × (deserialize_dmx b fresh
        ≡ returned (record two_channels { address = received_address house }) 20)
deserialize-serialize_dmx_example = deserialize-serialize_dmx two_channels fresh two_channels-IsDmx

dmx_address_arrives_example :
    (b : Bytes) × (d' : ArtDmx) × (n : ℕ) × (serialize_dmx two_channels ≡ ok b)
    × (deserialize_dmx b fresh ≡ returned d' n)
    × ((d'.address ≡ house) ↔ ((port_address house % 256 < 16) × (port_address house < 4096)))
    × (d'.address.net ≡ 0)
dmx_address_arrives_example = dmx_address_arrives two_channels fresh two_channels-IsDmx
