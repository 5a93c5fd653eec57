-- ===== src/Lib.antt =====
-- A resumable egress tunnel between an agent that can be suspended and the destinations it calls.
--
-- A sidecar beside the agent (internal/sidecar) speaks over one tunnel connection to a broker
-- (internal/broker), which holds the connections to the destinations. A suspend of the agent kills the
-- tunnel and nothing else: each side keeps what the other has not acknowledged, and after a reconnect
-- ATTACH and ATTACH_OK tell each side from which offset to send again. The broker asks for the agent to
-- be resumed when an answer waits for it; the sidecar asks for it to be suspended when it waits or idles.
--
-- The parts and their files:
--   Prelude: tests, lists, byte strings, Go's (value, error) pairs, slices of a stream.
--   Tunnel/Frame, Tunnel/Wire: internal/tunnel/wire.go, `Frame`, `encodeFrame`, `decodeFrame` and the
--     functions below them (`put_u64` is `putU64`, and so on).
--   Tunnel/Conn: `Conn` of internal/tunnel/wire.go, `WriteFrame` and `ReadFrame`.
--   Tunnel/Buffer: internal/tunnel/buffer.go, `ReplayBuffer` and its methods.
--   Broker/Session: internal/broker/session.go. State holds the session, what it touches and the ends of
--     its life; Uplink the bytes to the destination (`dialUpstream`, `onData`, `onSidecarClose`); Downlink
--     the bytes to the agent (`produceDownstream`, `onDownstreamAck`, `onSidecarAttach`); the file itself
--     the reader's loop, and the acts that can happen to a session.
--   Sidecar/Session: internal/sidecar/session.go, with `send` and the dispatch of `readLoop` of
--     internal/sidecar/client.go.
--   Sidecar/Suspender: internal/sidecar/suspender.go, `Run` tick by tick.
--   Broker/Table: internal/broker/broker.go and internal/broker/tunnelconn.go, `New`, and from
--     `serveTunnel` down; Turns what can happen to the broker.
--   Broker/Resumer: internal/broker/resumer.go, and `Ref` of internal/ateapi/ateapi.go.
--   Sidecar/Client: internal/sidecar/client.go, `NewClient`, `connectOnce`, `readLoop`,
--     `pingLoop`, `OpenSession`; Turns what can happen to the client.
--   Sidecar/Ingress: internal/sidecar/ingress.go, the count of requests and `deliver`; Requests the way of a
--     request (`handle`, `process`, `proxyInline`).
--   Sidecar/Proxy: internal/sidecar/proxy.go, a connection of the agent from its first request on.
--   System: a session from end to end, with all that happens to both halves and to the tunnels. Pipe has
--     what it promises; Promise, at the end, what holds of every run.
--   Loopback: demos/loopback-survival: the file itself internal/wire/wire.go; Server server/main.go; Client
--     client/main.go, with its report and its two other instruments; Loop the two on their connection, which
--     ends when the server's queue of acks is full (`enqueueAck`).
--   IngressBroker: demos/adk-calc/internal/ingressbroker/broker.go.
--   Commands: cmd/egress-broker/main.go, the operator's endpoints and the options.
--   Activity: internal/activityz/activityz.go and internal/activitystatus/status.go.
--   Resume: the broker's and the sidecar's session together, after a reconnect.
--   Examples: the theorems at concrete inputs, and runs of the code.
--
-- How code became definitions. A method keeps its name, in snake case. A Go function that takes and
-- releases a lock several times is one definition per critical section, and a handler that runs them one
-- after the other; what happens in between is modelled where a theorem is about it (DialWindow); a run of
-- acts takes each handler as a whole. What the network answers is an argument: the outcome of a dial, of a
-- write to the destination or the agent, whether a tunnel connection is alive. Calls of the session on its
-- broker (`wake`, `removeSession`) are events. Bytes are natural numbers below 256; offsets are uint64,
-- with their wrap-around written out, and the theorems on streams ask that a stream is shorter than 2^64
-- bytes. Buffer sizes and durations are natural numbers.
--
-- The broker's sessions are cells of a heap, since a tunnel connection keeps pointers to sessions that have
-- left the table; the sidecar's are cells under their numbers, which come around after 2^64 sessions.
--
-- Fuel. `produce_loop` and `write_loop` run on fuel, one more than the bytes they are given. Each round
-- takes a byte at least, so it is enough; `stuck` is not among the ends that the theorems on them allow. A
-- wait on a condition variable is an end of the run (`blocked`, `waiting`) with the bytes left over.
--
-- A run of the whole (System) keeps the bytes of every tunnel connection, and lets either end read any frame
-- on any of them at any time: so a frame may come late, again, out of order, or, if nobody reads it, never.
-- That is more than TCP allows. A dial has two steps there, and may fail, and so may a write to the agent. In
-- other ways a run is less than what the code may do: every write to the destination goes well, no DATA is
-- written between the two sections of a dial or between the write and the count of another DATA frame, and
-- neither replay buffer is larger than a DATA frame may be (256 KiB, where the default is 4 MiB). In these
-- windows the code may write bytes twice (the tests `written_twice` and `accepted_twice` of
-- Examples/Uplink), and a replay beyond a DATA frame is refused (Downlink/Oversize). `crc32.Update` is a
-- parameter, `update`; what is asked of it is that its values are 32 bits wide.
--
-- Not modelled: accept loops, the client's loop around `connectOnce`, the HTTP of the ingress, of the relay
-- and of the proxy, the rest of the commands, the demo agent and its servers, and the echo service: they are
-- library calls and the wiring between them. Time enters as a number where the code reads a clock. Log
-- lines, deadlines and `createdAt` are left out.
pub mod Prelude
pub mod Tunnel
pub mod Broker
pub mod Activity
pub mod Sidecar
pub mod Resume
pub mod System
pub mod Loopback
pub mod IngressBroker
pub mod Commands
pub mod Examples
