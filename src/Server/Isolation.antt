-- ===== src/Server/Isolation.antt =====
-- The turns that the server of src/main.rs takes for one camera, and the other cameras.
use a9_v.Prelude.{ℕ, ◌≡◌, ◌≢◌, refl, subst}
use a9_v.Prelude.Map.{lookup}
use a9_v.Wire.{Bytes}
use a9_v.Config.{AppConfig}
use a9_v.Runtime.{Host, Locks, World, world_of, update_camera}
use a9_v.Runtime.Invariant.{IsKept, IsSound, IsKept-refl, IsKept-trans}
use a9_v.Udp.Messages.{process_message}
use a9_v.Udp.Invariant.Messages.{process_message-Keeps}
use a9_v.Tcp.{start_streaming_for_camera, stop_streaming_for_camera, trigger_snapshot_for_camera}
use a9_v.Tcp.Router.{connected, clean_up}
use a9_v.Tcp.Router
use a9_v.Tcp.Invariant.Messages
use a9_v.Web.{Json}
use a9_v.Web.Control.{Task, run_task}
use a9_v.Web.Routes.{Request, serve}
use a9_v.Web.Routes.ReadOnly.Answers.{serve-Leaves}
use a9_v.Web.Invariant.{Leaves-world, address_of, run_task-Keeps}
use a9_v.Server.{Reachable, Reachable-IsSound}

module _ {Value : Type 0} (host : Host Value) (js : Json Value) (config : AppConfig) (ip : ℕ) where
  -- A turn for the address: a datagram from any of its ports, its TCP connection and the messages on
  -- it, and what a client asks for. Any request counts, since it leaves what it does to a task.
  pub data TurnFor : World → World → Type 0 where
    time_passes : (w : World) (now : ℕ) → TurnFor w (record w { clock = now })
    datagram :
        (l : Locks) (w : World) (local_port port : ℕ) (d : Bytes)
        → TurnFor w (world_of (process_message host local_port ip port config d l w))
    accepts :
        (l : Locks) (w : World) (conn : ℕ)
        → TurnFor w (world_of (update_camera host ip (connected conn) l w))
    message :
        (l : Locks) (w : World) (d : Bytes)
        → TurnFor w (world_of (Router.process_message host ip d l w))
    hangs_up : (l : Locks) (w : World) → TurnFor w (world_of (clean_up host ip l w))
    request : (l : Locks) (w : World) (r : Request) → TurnFor w (world_of (serve host js r l w))
    task :
        (l : Locks) (w : World) (t : Task)
        → address_of ip t ≡ ip
        → TurnFor w (world_of (run_task host t l w))
    starts : (l : Locks) (w : World) → TurnFor w (world_of (start_streaming_for_camera host ip l w))
    stops : (l : Locks) (w : World) → TurnFor w (world_of (stop_streaming_for_camera host ip l w))
    snapshots :
        (l : Locks) (w : World) → TurnFor w (world_of (trigger_snapshot_for_camera host ip l w))

  pub data TurnsFor (v : World) : World → Type 0 where
    none_yet : TurnsFor v v
    one_more : {w u : World} → TurnsFor v w → TurnFor w u → TurnsFor v u

  TurnFor-IsKept : {v w : World} → TurnFor v w → IsSound v → IsKept ip v w
  TurnFor-IsKept (time_passes w now) s = (s, λ j n. refl)
  TurnFor-IsKept (datagram l w local_port port d) s =
      (process_message-Keeps host local_port ip port config d).keeps l w s
  TurnFor-IsKept (accepts l w conn) s = (Messages.connected-Keeps host ip conn).keeps l w s
  TurnFor-IsKept (message l w d) s = (Messages.process_message-Keeps host ip d).keeps l w s
  TurnFor-IsKept (hangs_up l w) s = (Messages.clean_up-Keeps host ip).keeps l w s
  TurnFor-IsKept (request l w r) s =
      subst (IsKept ip w) (Leaves-world (serve-Leaves host js r l w)) (IsKept-refl ip w s)
  TurnFor-IsKept (task l w t e) s =
      subst (λ a. IsKept a w (world_of (run_task host t l w))) e
        ((run_task-Keeps host ip t).keeps l w s)
  TurnFor-IsKept (starts l w) s = (Messages.start_streaming_for_camera-Keeps host ip).keeps l w s
  TurnFor-IsKept (stops l w) s = (Messages.stop_streaming_for_camera-Keeps host ip).keeps l w s
  TurnFor-IsKept (snapshots l w) s =
      (Messages.trigger_snapshot_for_camera-Keeps host ip).keeps l w s

  pub TurnsFor-IsKept : {v w : World} → TurnsFor v w → IsSound v → IsKept ip v w
  TurnsFor-IsKept {v} none_yet s = IsKept-refl ip v s
  TurnsFor-IsKept {v} (one_more {w} {u} r t) s =
      let k = TurnsFor-IsKept r s in IsKept-trans ip v w u k (TurnFor-IsKept t k.0)

  -- From a world that the server has come to, let it take any number of turns for one address: any
  -- datagrams and TCP messages of the camera, the start and the end of its connection, its streaming
  -- and snapshots, and any requests, under any locks and however each turn ends. The camera of any
  -- other address is then as it was, in every field, or still missing.
  pub TurnsFor-IsApart :
      {v w : World} (j : ℕ)
      → Reachable host js config v
      → ip ≢ j
      → TurnsFor v w
      → lookup j w.manager.cameras ≡ lookup j v.manager.cameras
  TurnsFor-IsApart j r n t = (TurnsFor-IsKept t (Reachable-IsSound host js config r)).1 j n
