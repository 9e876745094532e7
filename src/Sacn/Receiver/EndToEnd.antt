-- ===== src/Sacn/Receiver/EndToEnd.antt =====
-- From `SacnServer` to `SacnReceiver` (custom_components/dmx/server/sacn_server.py).
use ha_artnet_led.Base.Bytes.{Bytes}
