-- ===== src/ArtNet/Server/Steps.antt =====
-- `ArtNetServer` of custom_components/dmx/server/artnet_server.py as a system that moves by the
-- calls of its methods and the steps of its coroutines, in any order.
use ha_artnet_led.Base.{ℕ, Bool, [], some, none, if◌then◌else◌}
use ha_artnet_led.Base.Action.{◌>>=◌, nothing, change}
use ha_artnet_led.Base.Bytes.{Bytes}
use ha_artnet_led.Base.Text.{Text}
use ha_artnet_led.Base.Text.Format.{codes}
use ha_artnet_led.ArtNet.Address.{PortAddress}
use ha_artnet_led.ArtNet.PollReply.{locate_identify}
use ha_artnet_led.ArtNet.Server.{ArtNetServer, ManualNode, add_manual_node}
use ha_artnet_led.ArtNet.Server.Replies.{Method, add_port, remove_port}
use ha_artnet_led.ArtNet.Server.Sending.{send_dmx, loop_step}
use ha_artnet_led.ArtNet.Server.Nodes.{remove_stale_nodes}
use ha_artnet_led.ArtNet.Server.Receiving.{disable_input_flag}
use ha_artnet_led.ArtNet.Server.Dispatch.{handle_datagram}

-- `ArtNetServer.__init__`, with the addresses of the machine and the callbacks that are set later.
unfoldable pub make_server :
    Bytes → Bytes → Bool → Bool → Bool → Bool → ℕ → ℕ → Text → Text → Bool → Bool → ℕ → ArtNetServer
make_server own_ip mac state_callback new_callback update_callback lost_callback firmware_version
      oem short_name long_name dhcp_configured sequencing retransmit_time_ms =
    record {
      own_ip = own_ip;
      mac = mac;
      has_state_callback = state_callback;
      has_new_callback = new_callback;
      has_update_callback = update_callback;
      has_lost_callback = lost_callback;
      firmware_version = firmware_version;
      oem = oem;
      short_name = short_name;
      long_name = long_name;
      dhcp_configured = dhcp_configured;
      sequencing = sequencing;
      sequence_number = if sequencing then 1 else 0;
      retransmit_time_ms = retransmit_time_ms;
      store = [];
      own_port_addresses = [];
      node_change_subscribers = [];
      nodes_by_ip = [];
      nodes_by_port_address = [];
      manual_nodes_by_port_address = [];
      indicator_state = locate_identify;
      status_message = codes "Initializing ArtNet server...";
      art_poll_reply_counter = 0;
      swout_text = codes "Output";
      swin_text = codes "Input";
      startup_time = none;
      loops = [];
      next_loop = 0;
    }

-- `connection_made` and `connection_lost`
unfoldable pub connection_made : ℕ → ArtNetServer → ArtNetServer
connection_made now s = record s {
  startup_time = some now;
  status_message = codes "Server started successfully";
}

unfoldable pub connection_lost : ArtNetServer → ArtNetServer
connection_lost s = record s { status_message = codes "Server connection lost" }

-- What happens to the server: a call from outside, a datagram, or a coroutine that goes on.
pub data Operation : Type 0 where
  connect : ℕ → Operation
  disconnect : Operation
  send : ℕ → PortAddress → Bytes → Operation
  resume : ℕ → Operation
  datagram : ℕ → Bytes → Bytes → Operation
  clean : ℕ → Operation
  disable_input : ℕ → ℕ → Operation
  open_port : ℕ → PortAddress → Operation
  close_port : PortAddress → Operation
  add_manual : PortAddress → ManualNode → Operation

unfoldable pub perform : (Bytes → Text) → Operation → Method (Unit {0})
perform decode_replacing (connect now) = change (connection_made now)
perform decode_replacing disconnect = change connection_lost
perform decode_replacing (send now address payload) =
    send_dmx now address payload >>= λ task. nothing
perform decode_replacing (resume id) = loop_step id
perform decode_replacing (datagram now addr packet) =
    handle_datagram decode_replacing now addr packet
perform decode_replacing (clean now) = remove_stale_nodes now
perform decode_replacing (disable_input now r) = disable_input_flag now r
perform decode_replacing (open_port now address) = add_port now address
perform decode_replacing (close_port address) = remove_port address
perform decode_replacing (add_manual address node) = change (add_manual_node address node)

-- The states that a server reaches; an exception ends the operation and not the server.
pub data Serves (decode_replacing : Bytes → Text) (s : ArtNetServer) : ArtNetServer → Type 0 where
  begin : Serves decode_replacing s s
  then_perform :
      {t : ArtNetServer} (o : Operation)
      → Serves decode_replacing s t
      → Serves decode_replacing s (perform decode_replacing o t).after
