-- ===== src/Lib.antt =====
-- Verification of the DMX integration for Home Assistant (custom_components/dmx).
--
-- The integration keeps DMX universes (io/dmx_io.py). A universe holds channel values, builds
-- frames from them and hands each frame to two protocols: Art-Net (server/__init__.py has the
-- packets) and sACN, that is E1.31 (server/sacn_packet.py has the packets, server/sacn_server.py
-- the server that streams universes and the receiver that listens to them).
-- server/artnet_server.py keeps the nodes that answer on the network and sends them the frames.
-- fixture/ describes what the channels of a lamp do, and entity/ shows them. All paths below are
-- relative to custom_components/dmx.
--
-- Base
--   Tests, Lists, Bits, Dict and Bytes are Python's tests, lists, bit operations, dicts and byte
--   strings over the native numbers, Text its strings as code points with the UTF-8 codec, and
--   Result its exceptions. Action is a method on a state: the state that it leaves, the calls
--   that it makes in order, and its value or exception; `Holds` is a relation that a call keeps,
--   with one rule for each way to build a call. Sets is a set as a list without repeats. `Dict`
--   is an association list in insertion order, and `Unique` says that no key stands twice in it,
--   as in every dict.
-- ArtNet (server/__init__.py)
--   Address is PortAddress. Codec is ArtBase: `serialize_base` and `deserialize_base` are its
--   serialize and deserialize, `append_…` and `consume_…` its static methods. A deserialize
--   method is a chain of steps on the object, the index and an exception (Codec/Reading),
--   because an exception leaves the fields that were assigned before it. Flags are the flag
--   bytes, and Dmx, Poll, PollReply, IpProg, Program and Messages the packets: ArtDmx, ArtPoll,
--   ArtPollReply, ArtIpProg with its reply, ArtAddress, and ArtDiagData, ArtTimeCode, ArtCommand
--   and ArtTrigger. For each packet, `serialize_…` is its serialize, `read_…` the body of its
--   deserialize, and `deserialize_…` the method with the SerializationError that it swallows.
-- ArtNet/Server (server/artnet_server.py)
--   The state of ArtNetServer is in Server; the own ports are objects that coroutines share, so
--   they live in a store. Replies has the poll replies, add_port and remove_port, Sending has
--   send_dmx and start_artdmx_loop, cut where it sleeps (`loop_step` runs a coroutine to its
--   next sleep, for the first time within send_dmx, as Home Assistant starts a background task
--   at once), Nodes the node tables, handle_poll_reply and remove_stale_nodes, Receiving the
--   other handlers, and Dispatch peek_opcode and handle_datagram. Steps has the operations of
--   the server in any order. Frame, FrameRounds, Index, Tables, Invariant and Learning follow
--   the node tables, Stale, Cleaning and Stuck the cleaning, and Loops, Ownership, Rounds,
--   Registering, Handlers and Order the coroutines. An IPv4 address is its four bytes, a set is
--   in order of insertion, and times are microseconds.
-- Sacn
--   Packet and Sync are SacnPacket and SacnSyncPacket (server/sacn_packet.py): `post_init` is
--   __post_init__, `serialize` and `deserialize` the methods of these names, in the order of the
--   code. Server is SacnServer (server/sacn_server.py). The states of its universes are objects
--   that coroutines hold while they wait, so they live in a store, and the dict of universes
--   holds positions. A coroutine is cut where it awaits a send: `begin_pending` and
--   `finish_pending` are the two parts of _send_pending_frame, `stream_round` and `finish_round`
--   those of a round of _stream_universe_data. Server/Tasks has the steps of the server and of
--   its coroutines in any order. The sends of one packet to its addresses are one burst.
--   Receiver is SacnReceiver; frames pass from Server to Receiver as bytes.
-- Universe (io/dmx_io.py)
--   State and Send are DmxUniverse: one function per method, on a record of its fields. A method
--   gives the universe that it leaves, the calls that it makes in order, and the exception that
--   it raises. Times are ticks of a monotonic clock, handed in. Clock adds the event loop, which
--   keeps when the timer is due by the delay of call_later and runs it then or later; it and the
--   universe read one clock.
--   Values, Frame, FrameLength, Listeners and Output follow the channels and the frames, and
--   Throttle, Quiet, Untimed, Due and Pace the timer.
-- Fixture (fixture/channel.py, fixture/delegator.py, entity/select.py, entity/light/__init__.py)
--   Channel has a channel and the bytes of its values, with the range of a Capability
--   (fixture/capability.py). Select is DmxSelectEntity: the number entities are objects that
--   selects share, so their flags `available` are a store, and the bytes that a choice writes
--   are an event. Group has the slots of a mode and _group_by_channel, Lights the choice of the
--   light entities: `plan_light` gives the colour mode and the types of the channels in the
--   order in which the code appends them, and `build_light_entity` is a round of the loop over
--   the matrix keys.
-- Animation (animation/engine.py)
--   Engine is DmxAnimationEngine: the table of active animations, the owners of the channels,
--   and the coroutines of _run_animation, cut at their sleeps; a round that raises is an input
--   of the model. Exclusive and Channels have the invariant of the tables, Conflicts and RunsOn
--   what it means for animations that want the same channel.
--
-- Loops are structural recursion, and only `chunks_of` in ArtNet/Server/Replies runs on fuel, of
-- the length of its list, which is enough (Chunks beside it). Sequence numbers and packed words
-- keep their wrap-around. Sockets, the event loop and its timers, the callbacks and Home
-- Assistant are events of the model. What a callback does to the universe while an update waits
-- for it is not modelled, nor are the log and the opening of sockets.
--
-- Not modelled: the poll loop of the Art-Net server, the frames of animations, the expansion of
-- matrices, the classes of capabilities and the parser of fixture files, the state of lights,
-- the number and node entities, and set-up. Colour and entity values are floating-point numbers
-- of Home Assistant.
pub mod Base
pub mod ArtNet
pub mod Sacn
pub mod Universe
pub mod Fixture
pub mod Animation
