-- ===== src/Lib.antt =====
-- A virtual Ethernet network over QUIC: a server relays the frames of clients that share a room.
--
-- The server accepts a connection (internal/control/handler.go), reads a request to join, and asks
-- the manager (internal/relay/room.go) for a peer in the room of that name. The room gives the peer
-- an IPv4 address of its /24 and a hardware address. From then on the handler passes each frame that
-- the peer sends to Room.Forward and puts it on the queues of the peers that this returns. All
-- messages have the framing of internal/protocol/protocol.go. internal/capture keeps records of the
-- frames and internal/logmem the lines of the log. A client (internal/client/client.go) is told over
-- HTTP (internal/webui/server.go) to join a room; its controller starts a loop of sessions, each of which
-- connects, joins, and passes frames between its device and the data stream. One with a TUN device makes
-- up the Ethernet header of its packets itself. Clients measure the latency between them by probes on
-- their control streams, which the server passes on.
--
-- Files, and the code that they are about:
--   Base and its children: Go's strings, maps, slices, binary integers, sorting and fmt verbs.
--   Protocol: WriteMessage and ReadMessage on a buffer and on a stream that ends or fails; Messages
--     has the records, Json has MarshalMessage, WriteJSON and ReadJSON; Framing and Errors prove.
--   Relay/Address, Relay/Mac, Relay/Error: the helpers at the end of room.go, and its errors.
--   Relay/Peer: the Peer, its queue (Enqueue, closeFrames) and its frame rate (AllowFrame).
--   Relay/Room: the Room, one function for each method, as its lock protects it; Hosts, Members,
--     Joining, Leaving, Forwarding, Delivery and Recipients prove.
--   Relay/Manager: the Manager on a heap of rooms and peers. A pointer is an address of the heap.
--     Steps has the interleavings of all goroutines as a relation between heaps, one step for each
--     critical section; Invariant and Tidy say what every step keeps, and Safety what follows from it.
--   Relay/Snapshots, Relay/Notifications: the views of a manager and of a room, and the messages that
--     a room puts into the Notify channels of its peers.
--   Control: internal/control/handler.go. Session has the checks of a request to join, Handler the
--     session from the request over the accept to the clean-up, with a child for each of them and for
--     the bytes of a peer list, Streams one turn of each goroutine
--     around the data loop, Data one turn of that loop, and Probes the latency probes;
--     Data/Relaying and Data/Delivering prove.
--   Capture, Logmem: internal/capture/recorder.go and internal/logmem/recorder.go.
--   Logmem/History: the log against the list of all messages.
--   Client/Config: the configuration of internal/client/local_config.go, and normalizeConfig.
--   Client/Status: the Status of internal/client/client.go, with its lock's critical sections; Next has
--     the choice of the peer to probe, and Answers what a pong and the time do.
--   Client/Session: runLoop over the rounds that the network gives, and the answer to a request to
--     join; Client/SetUp: runSession up to the start of its goroutines; Client/Controller: Join and
--     Leave, and the steps of their goroutines.
--   Client/Frames: the functions on frames; Client/Data and Client/Control: one turn of each loop over
--     the device, the data stream and the control stream; Client/Loops: the loops over such turns.
--   Server: LoadPool, the defaults and the TLS configuration of internal/server/server.go; Server/Pool
--     leads to Relay/Manager.
--   Webui: the handlers of internal/webui/server.go, and who gets to them.
--   Tap: internal/tap, with a module for each of Linux, macOS (Darwin) and Windows. Tapsetup:
--     cmd/tapsetup/main_windows.go.
--   The modules named Tests apply the theorems at concrete values.
--
-- Conventions. `none` is a panic where a function says so, Result is Go's pair of a value and an
-- error. Times are nanoseconds from Go's zero time. Unsigned integers keep their wrap-around; an
-- int that only counts or measures is a natural number.
--
-- Bounds and fuel. The loop of Join takes fuel, and one round is enough while no other goroutine
-- runs. The digits of a number take fuel above the number. The loop over the messages of a stream takes
-- fuel above the number of its bytes, since a message has a header. Everything else is structural: the
-- loops over a device and over the sessions run over a list of what the device and the network give.
--
-- Parameters. encoding/json is a codec of which the round trip alone is assumed; crypto/rand is a
-- function from a length to bytes, or an error, of which the length is assumed; the text of an IP
-- address in Capture, strings.TrimSpace and net.ParseMAC in Control are any functions. The order in
-- which Go visits a map is that of the list that models the map. The files of a client read back
-- what a write that succeeded put into them, and one that failed may leave anything, net/netip
-- clears the bits behind a prefix as it documents, and net/http, the embedded files and net.ParseIP
-- are any functions. Of the devices, the interfaces of the system, its files, its registry and what
-- a command prints are arguments, and so are water.New and net.ParseCIDR. What a connection of a
-- client and its streams come to is an argument.
--
-- Not modelled: QUIC, the listeners of the server and the making of a certificate, reads and writes of a
-- device, the flags of the commands, the log's text, and the web page, which are system calls and other
-- languages. Of the client's Status its Snapshot is left out, and so is the wiring of RunControl,
-- Serve and ListenAndServe.
pub mod Base
pub mod Protocol
pub mod Relay
pub mod Capture
pub mod Logmem
pub mod Client
pub mod Server
pub mod Webui
pub mod Control
pub mod Tap
pub mod Tapsetup
