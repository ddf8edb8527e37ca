-- ===== src/Camera/Session.antt =====
-- How far a session with a camera has come: the fields of CameraConnection in src/types.rs that the
-- handlers move it through, and the fields that the routers leave as they are made.
use Prim.{⊥}
use a9_v.Prelude.{ℕ, ◌≤◌, ◌<◌, ◌≡◌, [], Option, none, some}
use a9_v.Camera.{
  CameraConnection, ProtocolState, disconnected, configuring, registering, idle, nat_traversal,
  streaming, snapshot, error, ProbeState, not_started, in_progress, completed,
}

-- A state that a camera comes to, with its connection: a disconnected one has none.
abbrev pub IsReached : ProtocolState → Option ℕ → Type 0
IsReached disconnected conn = conn ≡ none
IsReached nat_traversal conn = ⊥
IsReached snapshot conn = ⊥
IsReached error conn = ⊥
IsReached configuring conn = Unit
IsReached registering conn = Unit
IsReached idle conn = Unit
IsReached streaming conn = Unit

-- The port that is told to the camera is the one that a socket is bound to, out of 32000..65000.
abbrev pub IsVideoPort : Option ℕ → Option ℕ → Type 0
IsVideoPort none none = Unit
IsVideoPort none (some port) = ⊥
IsVideoPort (some socket) none = ⊥
IsVideoPort (some socket) (some port) = (socket ≡ port) × (32000 ≤ port) × (port < 65000)

abbrev pub IsProbe : ProbeState → Type 0
IsProbe not_started = Unit
IsProbe (in_progress count) = (1 ≤ count) × (count ≤ 2)
IsProbe completed = Unit

-- As `CameraConnection::new` leaves them.
abbrev pub IsUnused : CameraConnection → Type 0
IsUnused c =
    (c.protocol_state ≡ disconnected)
    × (c.viewers ≡ [])
    × (c.nat_ports ≡ [])
    × (c.device_info ≡ none)
    × (c.token ≡ none)
    × (c.camera_nat_port ≡ none)
    × (c.code51_count ≡ 0)
    × (c.retry_count ≡ 0)
    × (c.pending_command ≡ none)

abbrev pub IsSession : CameraConnection → Type 0
IsSession c =
    IsReached c.state c.tcp_conn
    × IsVideoPort c.random_video_socket c.random_video_port
    × IsProbe c.probe_state
    × IsUnused c
