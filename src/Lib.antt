-- ===== src/Lib.antt =====
-- A verification library for meshtastic-lora-rs, a Meshtastic mesh node in Rust over a software LoRa
-- modem.
--
-- The program: a node (mesh/src/app.rs) builds frames from messages and handles received bytes. It
-- stands on the packet format, the payload cipher and the duty-cycle ledger (mesh/src/mac), on the
-- router and the neighbour table (mesh/src/mesh) and on the protobuf messages (mesh/src/proto). The
-- radio loop (mesh/src/radio.rs) owns one node, a driver and two modems: each turn it applies the
-- commands of the user interfaces to the shared state (mesh/src/model.rs), sends what is due, and
-- hands what the modem decodes to the node. A server (mesh/src/server.rs) sends snapshots of the
-- shared state to web clients (mesh/src/proto_ws.rs, mesh/src/bin/mesh_web.rs) and passes their
-- commands on. The graphical interface (mesh/src/view/mod.rs) is the same on the desktop
-- (mesh/src/bin/mesh.rs) and in the browser: it reads the shared state and sends commands.
--
-- The files:
--   Common         bytes, bits, exclusive or, UTF-8, hexadecimal and decimal text, results and lists,
--                  and where an element stands in a list
--   Mac.Packet     mac/packet.rs: MeshHeader, MeshFrame, to_bytes, from_bytes
--   Mac.Crypto     mac/crypto.rs: MeshCrypto, nonce, encrypt, decrypt
--   Mac.DutyCycle  mac/duty_cycle.rs: DutyCycle, can_send, record_tx, evict_stale, time_on_air
--   Mesh.Router    mesh/router.rs: DedupCache, check_and_insert, route
--   Mesh.Node      mesh/node.rs: LocalNode, NeighbourTable
--   Proto          proto/mod.rs: encode_to_data, decode_user, text
--   App            app.rs: MeshNode, build_frame and its two callers, process_rx_frame, which is
--                  `process_rx_frame`, `receive`, `respond`, `deliver_with`, `decode_payload` in turn
--   Presets        presets.rs: the tables, lookup by name, channel frequencies
--   Model          model.rs: ViewModel, Command, apply
--   ProtoWs        proto_ws.rs: Snapshot, from_view, apply
--   Server         server.rs: handle_socket and the routes
--   Radio          radio.rs: the locals of sim_loop as the record Loop; its phases in Rebuild, Send,
--                  Spectrum and Decode, and the whole turn in Tick; `tick` takes the commands that
--                  wait in the channel, `ticks` is a run of turns. Plan says what a turn has to send;
--                  Outgoing, Hearing and Timer follow a text to the driver and from the modem
--                  to the log, and the beacons through a run
--   Cli            bin/mesh.rs: parse_args, has_display, and in Main what main starts and prints
--   View           view/mod.rs: MeshSimApp and the record Responses, what egui reports in a frame; the
--                  handlers in Settings, Messages and Qr, the two layouts in Layout and Mobile, `update`
--                  in Frame; Synced puts frames, turns of the radio loop and commands of web
--                  clients in any order, and Heard goes from one user's input field to another
--                  node's window
--   WebClient      bin/mesh_web.rs: start, the reader, the writer and the URL; Remote joins the client,
--                  the socket's session and a turn of the radio loop
--   Tests          concrete parameters and runs
-- All paths are under mesh/src.
--
-- State is passed on: an operation on `&mut self` returns the changed value, and a mutex or an atomic
-- of the shared state is a field of a record. Machine integers are native numbers with the wrap-around
-- written out; a Rust string is its list of bytes. Code that is not in the repository is a parameter:
-- the stream cipher (Cipher), the protobuf messages (Proto), floating point numbers (Floats, Ui), the
-- modems, drivers, clock and random numbers (Lora), egui, charts and QR codes (Gui), JSON on the two
-- sides of the socket (Json, Web), the parser of socket addresses. What the theorems need of it is in
-- IsStreamCipher, IsCodec and IsConsuming, and for JSON in ReadsBack and AnswerReadsBack, which speak of
-- the commands and messages of one session only: serde_json keeps neither infinities nor every digit.
--
-- Bounds and fuel: eviction from the ledger, the neighbour table and the cache are structural
-- recursion on lists. A block of samples is analysed with the number of samples as fuel, which is
-- more than the number of blocks; decimal text has twenty digits, enough for 64 bits. The decoding
-- loop has one turn more than the buffer has samples, and every result of the modem but the last
-- consumes one; it never consumes more than there is, where `drain` would panic. The loop of parse_args
-- has one turn more than there are arguments.
--
-- Not modelled: captions, spacing and sizes of the egui interface, threads and runtimes of the two
-- binaries, the browser's and axum's set-up, generated protobuf code. With sleeps and wall-clock time
-- between turns left out, a turn of the radio loop is a function of the commands that wait and of what
-- the world answers.
pub mod Common
pub mod Mac
pub mod Mesh
pub mod Proto
pub mod App
pub mod Presets
pub mod Model
pub mod ProtoWs
pub mod Server
pub mod Radio
pub mod View
pub mod Cli
pub mod WebClient
pub mod Tests
