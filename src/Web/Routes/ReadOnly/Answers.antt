-- ===== src/Web/Routes/ReadOnly/Answers.antt =====
-- When the handlers of src/web answer.
use a9_v.Prelude.{ℕ, ◌≡◌, refl, List, ◌∷◌, true, ◌==◌, if◌then◌else◌, arith, Bool-cases, inl, inr}
use a9_v.Prelude.Map.{insert, lookup-insert}
use a9_v.Wire.{Bytes}
use a9_v.Runtime.{Host, World, Locks, Mode, Outcome, done, guards, reading}
use a9_v.Web.{Json}
use a9_v.Web.Control.{Reply, start_streaming, stop_streaming, trigger_snapshot}
use a9_v.Web.Legacy.{
  ConfigCheckParams, Query, bootstrap_response, handle_config_check, handle_bootstrap_registration,
  handle_bootstrap_confirm,
}
use a9_v.Web.Routes.{
  Request, api_cameras, api_info, api_snapshot, api_stream, api_mjpeg, api_debug, api_start,
  api_stop, config_check, register_devices, confirm, serve,
}
use a9_v.Web.Routes.ReadOnly.{
  Leaves, answers, panics, waits, Freedom, IsReadOnly, Reads, pure-IsReadOnly, bind-IsReadOnly,
  or_panic-IsReadOnly, utc_now-IsReadOnly,
}
use a9_v.Web.Routes.ReadOnly.Handlers.{
  start_streaming-IsReadOnly, trigger_snapshot-IsReadOnly, stop_streaming-IsReadOnly,
  without_task-IsReadOnly, list_cameras-IsReadOnly, get_camera_info-IsReadOnly,
  debug_buffer-IsReadOnly, get_video_stream-IsReadOnly, get_mjpeg_stream-IsReadOnly,
}

-- Every lock is granted to a reader.
pub record IsReadable {Value : Type 0} (host : Host Value) (l : Locks) : Type 0 where
  pub manager_granted : host.read_granted l.manager ≡ true
  pub cameras_granted : (ip : ℕ) → host.read_granted (guards ip l) ≡ true

-- The requests whose handlers unwrap or slice.
abbrev pub MayPanic : Request → Type 0
MayPanic (config_check params) = Unit {0}
MayPanic (register_devices params) = Unit {0}
MayPanic (confirm params) = Unit {0}
MayPanic _ = ⊥

guards-insert :
    (ip j : ℕ) (g : List Mode) (l : Locks)
    → guards j (record l { cameras = insert ip g l.cameras }) ≡ (if ip == j then g else guards j l)
guards-insert ip j g l = ground (arith, lookup-insert ip j g l.cameras)

module _ {Value : Type 0} (host : Host Value) where
  manager_freedom : Freedom host
  manager_freedom = record {
    Free = λ l. host.read_granted l.manager ≡ true;
    manager_free = λ l q. q;
    manager_kept = λ l q. host.read_shared l.manager q;
    camera_kept = λ ip l q e. q;
  }

  shared :
      (ip j : ℕ) (l : Locks)
      → IsReadable host l
      → host.read_granted
          (guards j (record l { cameras = insert ip (reading ∷ guards ip l) l.cameras }))
        ≡ true
  shared ip j l q = elim (Bool-cases (ip == j)) [
    | inl e ↦
        rw (guards-insert ip j (reading ∷ guards ip l) l, e)
          (host.read_shared (guards ip l) (q.cameras_granted ip))
    | inr e ↦ rw (guards-insert ip j (reading ∷ guards ip l) l, e) (q.cameras_granted j)
  ]

  readable_freedom : Freedom host
  readable_freedom = record {
    Free = IsReadable host;
    manager_free = λ l q. q.manager_granted;
    manager_kept = λ l q. record {
      manager_granted = host.read_shared l.manager q.manager_granted;
      cameras_granted = q.cameras_granted;
    };
    camera_kept = λ ip l q e. record {
      manager_granted = q.manager_granted;
      cameras_granted = λ j. shared ip j l q;
    };
  }

  module _ (js : Json Value) where
    abbrev Serves : Request → Type 0
    Serves request = IsReadOnly (readable_freedom) (MayPanic request) (serve host js request)

    reads : Reads readable_freedom
    unfolding readable_freedom
    reads ip l q = q.cameras_granted ip

    bootstrap_response-IsReadOnly :
        (v : Value) → IsReadOnly readable_freedom (Unit {0}) (bootstrap_response host js v)
    unfolding bootstrap_response
    bootstrap_response-IsReadOnly v =
        bind-IsReadOnly _ _ (or_panic-IsReadOnly tt _) (λ s. pure-IsReadOnly _)

    config_check-IsReadOnly : (p : ConfigCheckParams) → Serves (config_check p)
    unfolding serve handle_config_check
    config_check-IsReadOnly p = without_task-IsReadOnly js _ (
        bind-IsReadOnly _ _ utc_now-IsReadOnly
          (λ now. bind-IsReadOnly _ _ (or_panic-IsReadOnly tt _) (λ s. pure-IsReadOnly _)))

    register_devices-IsReadOnly : (q : Query) → Serves (register_devices q)
    unfolding serve handle_bootstrap_registration
    register_devices-IsReadOnly q =
        without_task-IsReadOnly js _
          (bind-IsReadOnly _ _ (or_panic-IsReadOnly tt _) (λ i. bootstrap_response-IsReadOnly _))

    confirm-IsReadOnly : (q : Query) → Serves (confirm q)
    unfolding serve handle_bootstrap_confirm
    confirm-IsReadOnly q = without_task-IsReadOnly js _ (bootstrap_response-IsReadOnly _)

    serves : (request : Request) → Serves request
    unfolding serve
    serves api_cameras = without_task-IsReadOnly js _ (list_cameras-IsReadOnly js reads)
    serves (api_info d) = without_task-IsReadOnly js _ (get_camera_info-IsReadOnly js reads d)
    serves (api_snapshot d) = trigger_snapshot-IsReadOnly js d
    serves (api_stream d) = without_task-IsReadOnly js _ (get_video_stream-IsReadOnly js reads d)
    serves (api_mjpeg d) = without_task-IsReadOnly js _ (get_mjpeg_stream-IsReadOnly js reads d)
    serves (api_debug d) = without_task-IsReadOnly js _ (debug_buffer-IsReadOnly js reads d)
    serves (api_start d) = start_streaming-IsReadOnly js d
    serves (api_stop d) = stop_streaming-IsReadOnly js d
    serves (config_check p) = config_check-IsReadOnly p
    serves (register_devices q) = register_devices-IsReadOnly q
    serves (confirm q) = confirm-IsReadOnly q

    -- No handler changes the state of the server or sends anything. It answers, or panics, which
    -- only the handlers of the config check and the registration can do, or waits, which it does
    -- only where some lock is not granted to readers when it starts.
    pub serve-Leaves :
        (request : Request) (l : Locks) (w : World)
        → Leaves (MayPanic request) (IsReadable host l) w (serve host js request l w)
    unfolding readable_freedom
    serve-Leaves request l w = (serves request).leaves l w

    answer :
        {A : Type 0} {Q : Type 0} {w : World} {o : Outcome A}
        → Q
        → Leaves ⊥ Q w o
        → (a : A) × (o ≡ done a w)
    answer q (answers a) = (a, refl)
    answer q (panics p) = elim p [ ]
    answer q (waits n l) = elim (n q) [ ]

    -- Whatever locks of cameras are taken, the handlers that start and stop the streaming and take a
    -- snapshot answer, without a change to the server, where the manager's lock is granted to readers.
    pub control-answers :
        (device_id : Bytes) (l : Locks) (w : World)
        → host.read_granted l.manager ≡ true
        → ((a : Reply Value) × (start_streaming host js device_id l w ≡ done a w))
          × ((b : Reply Value) × (stop_streaming host js device_id l w ≡ done b w))
          × ((c : Reply Value) × (trigger_snapshot host js device_id l w ≡ done c w))
    unfolding manager_freedom
    control-answers device_id l w q = (
      answer q ((start_streaming-IsReadOnly js {fr = manager_freedom} device_id).leaves l w),
      answer q ((stop_streaming-IsReadOnly js {fr = manager_freedom} device_id).leaves l w),
      answer q ((trigger_snapshot-IsReadOnly js {fr = manager_freedom} device_id).leaves l w),
    )
