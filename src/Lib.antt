-- ===== src/Lib.antt =====
-- The EchoMesh relay: an anonymous messenger's relay server, its client and the protocol between
-- them.
--
-- A client and a server exchange frames of 1420 bytes (src/protocol/frame.rs). The payload of a frame
-- is either raw or an envelope (src/protocol/envelope.rs) with a typed message
-- (src/protocol/messages). The routed relay (src/server/routed_listener.rs) keeps the registry of the
-- peers that are online and passes messages from peer to peer; the session pipeline
-- (src/server/networking/pipeline.rs) answers the messages of a single session. The client
-- (src/client) numbers its requests and hands each answer to the request that waits for it.
--
-- Prelude and its children: numbers, lists, big-endian words, `Result`, and the `bytes` crate, which
--   is a parameter, `ByteBuf`, with its documented behaviour as laws;
--   `documented` gives it by functions.
-- Maps: `HashMap` as an association list, with the laws of its operations.
-- Protocol.Frame: `Frame::new`, `from_slice`, `parse`, the codec's `encode`, `decode`,
--   `decode_exact`, `decode_eof` and `constant_time_eq`. Frame.Wire has the format, Frame.Stream the
--   stream of frames in pieces, Frame.Compare the comparison.
-- Protocol.MessageTypes, Protocol.Versioning, Protocol.Envelope, Protocol.Validation: the envelope.
-- Protocol.Messages.ClientToServer and ServerToClient: the typed messages. `from_utf8_lossy` is a
--   parameter, `Utf8`, which keeps what is UTF-8 already.
-- Protocol.Codec: `EnvelopeCodec` of src/protocol/codec/mod.rs, each direction in a child.
-- Relay.Registry: `RouteRegistryInner`. A channel's sender is its number.
-- Relay.Session: one round of the frame loop of `handle_routed_noise_session`, after decryption. It
--   reads the registry once and returns the new registration and the actions to take, in order.
-- Relay.World: the sessions side by side. A step is a new connection, a received frame, one action,
--   the end of a stream or an error; whether a channel still has its receiver is open in each step.
--   The code holds the registry's lock over some of the actions that are apart here, so every
--   order of the code is an order of the model.
-- Relay.Gate: `handle_connection`, from the first bytes of a connection to the session or the
--   fallback target.
-- Transport.Tokens, Transport.Hello, Transport.Builder, Transport.Hex: `TokenValidator`,
--   `parse_client_hello`, `PseudoTlsBuilder`, `hex_encode` and `hex_decode` of
--   src/transport/obfuscation.rs. Hello.Wire has the format of a ClientHello. `str::from_utf8` and
--   `str::trim` are parameters, `Utf8` and `Trim`.
-- Server.Connections, Server.Sessions: `ConnectionManager` and `SessionManager`.
-- Server.Handlers: the handlers and `ServerInboundRouter`. Server.Outbound: `ServerOutboundRouter`.
-- Server.Pipeline: `ServerPipeline::process_frame`.
-- Client.Inbound, Client.Outbound: the two routers of src/client/routing. Client.Exchange composes
--   them with the pipeline. Client.Actor: the background task of src/client/api.rs. Client.Peers
--   composes it with the relay.
-- Server.Gate: `handle_connection` of src/server/listener.rs, against Relay.Gate.
-- Server.Lifecycle: what `handle_authenticated_noise_session` does around its loop.
-- Server.Prefixed: `PrefixedStream` of src/server/listener.rs. Server.Config: the access token and
--   its files in src/server/config.rs.
-- Transport.Noise: encrypted frames of src/transport/noise.rs. The `snow` crate's transport state is
--   a parameter, `Snow`: two states in step read in order what the other wrote. Its `session_loop` is
--   the `select!` loop of `handle_authenticated_noise_session` (src/server/listener.rs), where a pick
--   of an outgoing frame says how many bytes the dropped `recv_frame` had taken.
-- Crypto.Base64: the Base64 codec and the key formats of src/crypto/keys.rs.
-- Examples: the theorems at concrete inputs.
--
-- Bytes are natural numbers, and a theorem asks for `AreBytes` where it matters that they are below
-- 256. A `u16` or `u64` that is written is cut to its width by the big-endian form, and a counter
-- wraps at 2 ^ 64. Loops are on fuel: `drain` of Frame.Stream has the length of the buffer, and each
-- frame takes 1420 bytes of it; the loops of Transport.Hello have one round for each byte that they
-- are given, and Hello.Total shows that they end; the loop of Relay.Gate has three rounds, and
-- Gate.Rounds shows that they are enough. The `select!` loops of a session (Transport.Noise) and of
-- the client's task (Client.Actor) follow the list of what is picked. The registry's connection
-- numbers are taken not to repeat: a theorem that needs it bounds the connections by 2 ^ 64.
--
-- Time and the identity of channels are arguments. Logs, `Debug` output and the texts of errors are
-- left out. Not modelled: sockets and tasks, the Noise handshake (src/transport/noise.rs), the
-- generation and the files of keys (src/crypto/keys.rs), the builders of
-- the configurations (src/server/config.rs) and the program itself (src/main.rs).
pub mod Prelude
pub mod Maps
pub mod Protocol
pub mod Relay
pub mod Server
pub mod Transport
pub mod Client
pub mod Crypto
pub mod Examples
