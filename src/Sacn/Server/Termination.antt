-- ===== src/Sacn/Server/Termination.antt =====
-- The end of a universe's stream, in `SacnServer` (custom_components/dmx/server/sacn_server.py).
use ha_artnet_led.Base.{true, List, ◌++◌}
use ha_artnet_led.Base.Bytes.{Bytes}
use ha_artnet_led.Sacn.Server.{UniverseState, Event}
use ha_artnet_led.Sacn.Server.Send.{cancel}

abbrev pub thrice : List Event → List Event
thrice es = es ++ (es ++ es)

-- The object of a terminated universe.
abbrev pub ended : UniverseState → UniverseState
ended st = record st { stream_task = cancel st.stream_task; termination_sent = true }
