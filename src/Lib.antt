-- ===== src/Lib.antt =====
-- The A9 V720 camera server: a server in Rust that cameras register with over TCP and send their
-- video to over UDP. Paths are from the root of the repository.
--
-- src/protocol/binary.rs is the format of a message: a header of 20 bytes before its payload. It is
-- Protocol/Header.antt and Protocol/Confirm.antt (ProtocolHeader, RetransmissionConfirm: `from_bytes`,
-- `to_bytes` and the constructors). Wire.antt has little-endian words and the `bytes` crate, and
-- Wire/Text.antt and Wire/Decimal.antt what the code uses of Rust's strings and numbers. The records
-- of src/protocol/messages.rs are Protocol/Messages.antt.
--
-- src/types.rs is the state of the server. Stream.antt is StreamBuffer, which puts frames together
-- from the packets of a camera and keeps the last ones; Camera.antt is CameraConnection; Manager.antt
-- is CameraManager, the map from addresses to cameras. Config.antt is AppConfig of src/config.rs.
--
-- src/router runs handlers on that state. Runtime.antt is what they run on: a world (the manager, the
-- clock, what has been sent), the locks, and a host with what is outside of the repository: tokio's
-- RwLock, the sockets, serde_json, the random numbers. Udp.antt and Udp/Messages.antt are UdpRouter
-- of src/router/udp.rs, Tcp.antt and Tcp/Router.antt TcpRouter of src/router/tcp.rs: one definition
-- for each handler, under its name, and `process_message`, which chooses among them. A handler takes
-- the locks that are held and a world, and ends in a value, an error, a panic, or `stuck`, where it
-- waits for a lock that it holds itself.
--
-- src/web is the HTTP server. Web.antt is what its handlers share, Web/Info.antt, Web/Video.antt and
-- Web/Control.antt are src/web/camera_endpoints.rs, Web/Legacy.antt the handlers of src/web/server.rs,
-- and Web/Routes.antt the requests that are handed to them. A handler gives a response, and a task
-- where it spawns one, and the task runs by itself (`run_task`). A camera's `device_id` is taken to
-- be there, which is a `String` in src/types.rs and an `Option` in the endpoints.
--
-- Integers are natural numbers, with the wrap-around of a cast or a product written out; a header's
-- ranges are the hypothesis `InRange`. A HashMap is an association list, an IP address a number, an
-- instant a number of nanoseconds, a socket the port that it is bound to, a TCP connection a number.
-- The one loop on fuel, `read_ids`, is given one more than the length of its input, and reads four
-- bytes in each round; `digits`, which prints a number, is given the twenty digits that a number of 64
-- bits has; `retry_loop` recurs on the attempts that are left; `serve` of the TCP router recurs on the
-- list of the results of the reads.
--
-- The receive loop cuts a datagram to the 4096 bytes of its buffer; handlers are stated for any bytes.
-- A `usize` is taken to have 64 bits where its bytes are sent.
--
-- Server.antt is the server as a whole: the worlds that its turns reach from the start in src/main.rs.
-- Server/Startup.antt is `main` itself and Udp/Loop.antt the receive loop of src/router/udp.rs.
-- Server/Isolation.antt has the turns for one camera, and Runtime/Invariant.antt what every step of a
-- handler keeps. The files under Server/Delivery follow the packets of a frame to the HTTP client, and
-- Server/Info.antt is about endpoints on the worlds that are reached. Pool.antt and the files under
-- Pool are CameraPool of src/camera.rs, which src/main.rs does not include. Its enum `Message` is not in the
-- repository; the branches of its parser are ParsedMessage.
--
-- A handler is modelled by itself, without other tasks between its steps, and the clock stands still
-- meanwhile. How handlers run side by side is Tasks.antt: tasks that are interleaved wherever they take
-- or drop a lock. There a handler is what it does with the locks (Tasks/Handlers.antt, one definition for
-- each handler with `_locks` after its name), every other branch is left open, and an RwLock or Mutex of
-- tokio serves its waiters in their order. Tasks/Exclusion.antt and the files under Tasks/Order are about
-- any tasks, those under Tasks/Handlers about the handlers.
--
-- Logging is left out. Not modelled are what serde derives for src/protocol/messages.rs, the saving of the configuration, the pages and the static files
-- of the web server, axum's matching of paths, and the sockets and the main loop of src/camera.rs.
--
-- The other files prove the results below; Tests has a host, a world and runs.
pub mod Prelude
pub mod Wire
pub mod Protocol
pub mod Stream
pub mod Camera
pub mod Config
pub mod Manager
pub mod Runtime
pub mod Udp
pub mod Tcp
pub mod Web
pub mod Pool
pub mod Server
pub mod Tasks
pub mod Tests
