-- ===== src/Server.antt =====
-- The server as a whole: src/main.rs starts it with a new manager, and the tasks of src/router and the
-- web server take their turns on it. A turn is a whole handler; one connection takes a turn for its
-- start, one for each message and one for its end, with turns of others between them.
pub mod Startup
pub mod Info
pub mod Delivery
pub mod Isolation
use a9_v.Prelude.{ℕ, ◌≤◌, ◌≡◌, [], length, IsDistinct, some}
use a9_v.Prelude.Map.{lookup}
use a9_v.Wire.{Bytes}
use a9_v.Config.{AppConfig}
use a9_v.Camera.{CameraConnection}
use a9_v.Camera.Session.{IsSession}
use a9_v.Manager
use a9_v.Runtime.{Host, Locks, World, world_of, update_camera}
use a9_v.Runtime.Invariant.{IsSound, lookup_sound}
use a9_v.Udp.Messages.{process_message, sweep_round}
use a9_v.Udp.Invariant.{sweep_round-IsSound}
use a9_v.Udp.Invariant.Messages.{process_message-Keeps}
use a9_v.Tcp.{start_streaming_for_camera, stop_streaming_for_camera, trigger_snapshot_for_camera}
use a9_v.Tcp.Router.{connected, clean_up}
use a9_v.Tcp.Router
use a9_v.Tcp.Invariant.Messages
use a9_v.Web.{Json}
use a9_v.Web.Control.{Task, run_task}
use a9_v.Web.Routes.{Request, serve}
use a9_v.Web.Invariant.{serve-IsSound, run_task-Keeps}

abbrev pub boot : AppConfig → ℕ → World
boot config now = record {
  manager = Manager.new config;
  clock = now;
  sends = 0;
  draws = 0;
  out = [];
}

module _ {Value : Type 0} (host : Host Value) (js : Json Value) (config : AppConfig) where
  -- What a turn takes a world to. Whatever locks other tasks hold, and however the turn ends.
  pub data Turn : World → World → Type 0 where
    time_passes : (w : World) (now : ℕ) → Turn w (record w { clock = now })
    datagram :
        (l : Locks) (w : World) (local_port ip port : ℕ) (d : Bytes)
        → Turn w (world_of (process_message host local_port ip port config d l w))
    sweeps : (l : Locks) (w : World) → Turn w (world_of (sweep_round host l w))
    accepts :
        (l : Locks) (w : World) (ip conn : ℕ)
        → Turn w (world_of (update_camera host ip (connected conn) l w))
    message :
        (l : Locks) (w : World) (ip : ℕ) (d : Bytes)
        → Turn w (world_of (Router.process_message host ip d l w))
    hangs_up : (l : Locks) (w : World) (ip : ℕ) → Turn w (world_of (clean_up host ip l w))
    request : (l : Locks) (w : World) (r : Request) → Turn w (world_of (serve host js r l w))
    task : (l : Locks) (w : World) (t : Task) → Turn w (world_of (run_task host t l w))
    starts :
        (l : Locks) (w : World) (ip : ℕ)
        → Turn w (world_of (start_streaming_for_camera host ip l w))
    stops :
        (l : Locks) (w : World) (ip : ℕ) → Turn w (world_of (stop_streaming_for_camera host ip l w))
    snapshots :
        (l : Locks) (w : World) (ip : ℕ)
        → Turn w (world_of (trigger_snapshot_for_camera host ip l w))

  pub data Reachable : World → Type 0 where
    booted : (now : ℕ) → Reachable (boot config now)
    after : {v w : World} → Reachable v → Turn v w → Reachable w

  pub turn-IsSound : {v w : World} → Turn v w → IsSound v → IsSound w
  turn-IsSound (time_passes w now) s = s
  turn-IsSound (datagram l w local_port ip port d) s =
      ((process_message-Keeps host local_port ip port config d).keeps l w s).0
  turn-IsSound (sweeps l w) s = sweep_round-IsSound host l w s
  turn-IsSound (accepts l w ip conn) s = ((Messages.connected-Keeps host ip conn).keeps l w s).0
  turn-IsSound (message l w ip d) s = ((Messages.process_message-Keeps host ip d).keeps l w s).0
  turn-IsSound (hangs_up l w ip) s = ((Messages.clean_up-Keeps host ip).keeps l w s).0
  turn-IsSound (request l w r) s = serve-IsSound host js r l w s
  turn-IsSound (task l w t) s = ((run_task-Keeps host 0 t).keeps l w s).0
  turn-IsSound (starts l w ip) s =
      ((Messages.start_streaming_for_camera-Keeps host ip).keeps l w s).0
  turn-IsSound (stops l w ip) s = ((Messages.stop_streaming_for_camera-Keeps host ip).keeps l w s).0
  turn-IsSound (snapshots l w ip) s =
      ((Messages.trigger_snapshot_for_camera-Keeps host ip).keeps l w s).0

  pub Reachable-IsSound : {w : World} → Reachable w → IsSound w
  unfolding Manager.new
  Reachable-IsSound (booted now) = tt
  Reachable-IsSound (after r t) = turn-IsSound t (Reachable-IsSound r)

  -- Whatever turns the server has taken since its start, the camera that the manager has under an
  -- address has this address, its buffer has the limit of 100 frames and holds at most 100, and
  -- neither its retransmission bucket nor its list of received packages has a packet id twice.
  pub Reachable-cameras :
      {w : World} (ip : ℕ) (c : CameraConnection)
      → Reachable w
      → lookup ip w.manager.cameras ≡ some c
      → (c.ip ≡ ip)
        × (c.stream_buffer.max_frames ≡ 100)
        × (length c.stream_buffer.frames ≤ 100)
        × IsDistinct c.retransmission_bucket
        × IsDistinct c.received_packages
  Reachable-cameras {w = w} ip c r e =
      let s = lookup_sound ip c w.manager.cameras e (Reachable-IsSound r) in
      (s.address, s.buffer.limit, s.buffer.within, s.bucket, s.packages)

  -- Whatever turns the server has taken since its start, a camera that the manager has is
  -- disconnected, configuring, registering, idle or streaming, and in no other state, and a
  -- disconnected one has no TCP connection. It has a socket for video exactly where it has a video
  -- port, bound to this port, which lies in 32000..65000, and a probe in progress has counted one or
  -- two responses. Its second state, its viewers, NAT ports, device info, token, NAT port of the
  -- camera, counts of codes 51 and of retries and its pending command are as a new camera has them.
  pub Reachable-IsSession :
      {w : World} (ip : ℕ) (c : CameraConnection)
      → Reachable w
      → lookup ip w.manager.cameras ≡ some c
      → IsSession c
  Reachable-IsSession {w = w} ip c r e =
      (lookup_sound ip c w.manager.cameras e (Reachable-IsSound r)).session
