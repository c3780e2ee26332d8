-- ===== src/Lib.antt =====
-- Controlis is a remote desktop: a host shows an access code, a viewer connects with it over the
-- local network or through a rendezvous server, and after the host's approval it sees the screen
-- and sends input.
--
-- The parts, and the file that models each:
--   Security/RateLimit: the limiter of wrong codes (crates/security/src/rate_limit.rs). `check`,
--     `record_failure` and `record_success` are the methods of those names.
--   Security/Code, Security/ConnectCode: session codes and access codes (code.rs and
--     connect_code.rs beside it); `digit_of`, `separator` and `push_chars` are loop bodies and
--     loops of `normalize` and `from_payload`.
--   Protocol/Frame, Protocol/Message: the framing and the messages (crates/protocol/src/lib.rs,
--     frame.rs, message.rs).
--   Transport: what `ControlSender`, `ControlReceiver`, `send_media` and `recv_media` do with the
--     bytes of a stream (crates/transport/src/connection.rs); Transport/Identity: fingerprints and
--     the verifier of trust on first use (identity.rs and tls.rs beside it).
--   Rendezvous: the store of registrations (crates/rendezvous/src/lib.rs); the methods that read
--     the clock are the functions `.._at` with the time as an argument.
--     Rendezvous/Client: the HTTP client in the same file.
--   Server: the limit on requests and the handlers (servers/controlis-server/src/lib.rs).
--   Session: the host's side of the handshake (crates/session-host/src/session.rs), in
--     Session/Viewer the viewer's (crates/session-viewer/src/lib.rs), in Session/Injection the
--     thread that injects input.
--     Session/Control has the host's control loop, Session/Capture its capture thread and
--     Session/Stream `stream_and_control`, which runs both; Session/Service the loop of registration,
--     acceptance and session (crates/session-host/src/lib.rs); Session/Viewer/Tasks and
--     Session/Viewer/Media the viewer's three tasks.
--   Codec: frames, and in its folder the tiles, the encoder, the decoder, JPEG and the dispatch to
--     H.264 (crates/codec/src/lib.rs, encoder.rs, decoder.rs, h264.rs). A panic of the source is a
--     missing result.
--   Capture: the capturer of test patterns (crates/capture/src/synthetic.rs).
--   Storage: the tables of the database and its statements (crates/storage/src/db.rs).
--   Input: the injector and what it holds down (crates/input/src/enigo_backend.rs). Input/Coords
--     (coords.rs beside it), Input/Keysym (crates/wayland-portal/src/backend/keysym.rs) and
--     Input/Browser (apps/controlis-app/src-tauri/src/input_map.rs) turn what the viewer's user
--     does into what the host's desktop understands. Input/Eis: the client of an EIS server
--     (crates/wayland-portal/src/backend/eis_input.rs), with its event handlers in Input/Eis/Handle.
--   Desktop: the commands of the window (apps/controlis-app/src-tauri/src/commands/viewer.rs and
--     host.rs): Desktop/Target what a code means, Desktop/Connect the attempt to connect with its
--     check of the host's identity, Desktop/Slot the session that the window holds, Desktop/Host
--     the host's commands and its audit log.
--   Prelude and Net hold shared types and lemmas, Examples the theorems at concrete inputs.
--
-- The server's handlers work on the store under a limiter of their own; the host's handshake asks
-- the access code and the limiter of wrong codes; both sides exchange control messages that the
-- transport frames; the session's input ends in the injector, or in the EIS client. The host's capture
-- thread feeds the encoder, whose messages the viewer's media task decodes; the window's commands start
-- both sides and keep what the database knows of hosts.
--
-- Numbers: machine integers are natural numbers, with `% 2 ^ w` where the source can wrap. An
-- `Instant` and a `Duration` are counts of nanoseconds, a text is a list of code points, a byte a
-- number below 256, a hash map an association list in which `insert` replaces.
--
-- Parameters: `subtle` compares byte slices, `postcard` encodes messages and decodes what it
-- encoded, both with that as their law; the desktop below the injector answers calls in any way;
-- the random draws, the clocks and the outcomes of sends and reads are arguments; an f32 is a value
-- of a type parameter. JPEG compresses, or not, a block of whole pixels and expands what it
-- compressed, up to 16384 pixels a side, to some picture of the same size; OpenH264 has a law, where it is
-- used, on pictures that stand alone; SHA-256, HTTP, JSON, `std::net::SocketAddr` and the errors of
-- SQLite are parameters or arguments without laws, but that a digest has 32 bytes. What the network,
-- the operating system and the user do comes as lists of events, rounds, turns and cycles.
--
-- Loops are structural recursion on what is left to do, with two exceptions. The printing of a number
-- counts its places, twenty, which is enough for 64 bits. The two loops that cut a frame into tiles
-- count columns and rows, one more than whole tiles fit, which is enough since each step goes on by
-- one tile.
--
-- Not modelled: what is inside the libraries of JPEG and H.264, capture by the operating system and
-- the Wayland portal's D-Bus calls, the start of threads and endpoints, the connections of quinn and
-- Iroh with the making of certificates and key files, the reading of config.toml, HTTP and JSON, and
-- the user interface, all of which are calls of libraries or of the operating system.
-- The lines of the log on the rate of the media are left out.
pub mod Prelude
pub mod Net
pub mod Security
pub mod Protocol
pub mod Transport
pub mod Rendezvous
pub mod Server
pub mod Session
pub mod Input
pub mod Examples
pub mod Capture
pub mod Codec
pub mod Storage
pub mod Desktop
