-- ===== src/Camera.antt =====
-- ProtocolState, ProbeState, ViewerInfo and CameraConnection of src/types.rs. An instant is a number
-- of nanoseconds, and a method that calls `Utc::now()` takes it as an argument. A socket is the port
-- that it is bound to, a TCP connection is a number that stands for it, and a text is its bytes.
pub mod Bucket
pub mod Health
pub mod Ids
pub mod Session
use a9_v.Prelude.{
  ℕ, ◌+◌, ◌*◌, ◌^◌, List, [], ◌∷◌, ◌++◌, length, elem, Bool, true, false, not, ◌&&◌, ◌||◌, Option,
  none, some, ltb, ◌==◌, if◌then◌else◌,
}
use a9_v.Prelude.Map.{Map}
use a9_v.Prelude.Int.{ℤ, pos, sub_ℕ, div_trunc, ltb_ℤ, as_i64}
use a9_v.Wire.{Bytes}
use a9_v.Stream.{StreamBuffer, add_complete_frame}
use a9_v.Stream

pub data ProtocolState : Type 0 where
  disconnected configuring registering idle nat_traversal streaming snapshot error : ProtocolState

pub data ProbeState : Type 0 where
  not_started : ProbeState
  in_progress : ℕ → ProbeState
  completed : ProbeState

pub record DeviceInfo : Type 0 where
  pub code : ℕ
  pub udp_play_back : Option ℕ
  pub dev_power : ℕ
  pub sd_move_mode : ℕ
  pub sd_dev_status : ℕ
  pub ir_led : ℕ
  pub inst_led : ℕ
  pub speed_grade : ℕ
  pub mirror_flip : ℕ
  pub wifi_name : Bytes
  pub version : Bytes

pub record ViewerInfo : Type 0 where
  pub id : Bytes
  pub connected_at : ℕ
  pub last_activity : ℕ

pub record CameraConnection : Type 0 where
  pub device_id : Bytes
  pub ip : ℕ
  pub addr : ℕ × ℕ
  pub state : ProtocolState
  pub protocol_state : ProtocolState
  pub tcp_conn : Option ℕ
  pub stream_buffer : StreamBuffer
  pub received_packages : List ℕ
  pub last_retransmission_time : ℕ
  pub udp_ports : Map ℕ
  pub viewers : List (Bytes × ViewerInfo)
  pub last_heartbeat : ℕ
  pub last_keepalive : ℕ
  pub retry_count : ℕ
  pub device_info : Option DeviceInfo
  pub nat_ports : List ℕ
  pub device_info_ack_sent : Bool
  pub random_video_socket : Option ℕ
  pub random_video_port : Option ℕ
  pub probe_state : ProbeState
  pub first_retransmission_sent : Bool
  pub retransmission_bucket : List ℕ
  pub token : Option Bytes
  pub camera_nat_port : Option ℕ
  pub code51_count : ℕ
  pub pending_command : Option Bytes

-- `CameraConnection::new`, with the three instants that it reads.
unfoldable pub new : Bytes → ℕ → ℕ × ℕ → ℕ × ℕ × ℕ → CameraConnection
unfolding Stream.new
new device_id ip addr (t1, t2, t3) = record {
  device_id = device_id;
  ip = ip;
  addr = addr;
  state = disconnected;
  protocol_state = disconnected;
  tcp_conn = none;
  stream_buffer = Stream.new 100;
  received_packages = [];
  last_retransmission_time = t1;
  udp_ports = [];
  viewers = [];
  last_heartbeat = t2;
  last_keepalive = t3;
  retry_count = 0;
  device_info = none;
  nat_ports = [];
  device_info_ack_sent = false;
  random_video_socket = none;
  random_video_port = none;
  probe_state = not_started;
  first_retransmission_sent = false;
  retransmission_bucket = [];
  token = none;
  camera_nat_port = none;
  code51_count = 0;
  pending_command = none;
}

abbrev pub bytes_eq : Bytes → Bytes → Bool
bytes_eq [] [] = true
bytes_eq [] (b ∷ bs) = false
bytes_eq (a ∷ as') [] = false
bytes_eq (a ∷ as') (b ∷ bs) = a == b && bytes_eq as' bs

-- `HashMap<String, ViewerInfo>`
abbrev pub insert_viewer :
    Bytes → ViewerInfo → List (Bytes × ViewerInfo) → List (Bytes × ViewerInfo)
insert_viewer k v [] = (k, v) ∷ []
insert_viewer k v ((j, w) ∷ m) = if bytes_eq j k then (k, v) ∷ m else (j, w) ∷ insert_viewer k v m

abbrev pub erase_viewer : Bytes → List (Bytes × ViewerInfo) → List (Bytes × ViewerInfo)
erase_viewer k [] = []
erase_viewer k ((j, w) ∷ m) = if bytes_eq j k then m else (j, w) ∷ erase_viewer k m

unfoldable pub add_viewer : ℕ → Bytes → CameraConnection → CameraConnection
add_viewer now viewer_id c = record c {
  viewers =
      insert_viewer viewer_id (record { id = viewer_id; connected_at = now; last_activity = now })
        c.viewers;
}

unfoldable pub remove_viewer : Bytes → CameraConnection → CameraConnection
remove_viewer viewer_id c = record c { viewers = erase_viewer viewer_id c.viewers }

unfoldable pub viewer_count : CameraConnection → ℕ
viewer_count c = length c.viewers

unfoldable pub update_heartbeat : ℕ → CameraConnection → CameraConnection
update_heartbeat now c = record c { last_heartbeat = now }

abbrev second_ns : ℕ
second_ns = 1000000000

abbrev milli_ns : ℕ
milli_ns = 1000000

-- `duration.num_seconds() < timeout_seconds as i64`
unfoldable pub is_healthy : ℕ → ℕ → CameraConnection → Bool
is_healthy now timeout_seconds c =
    ltb_ℤ (div_trunc (sub_ℕ now c.last_heartbeat) second_ns) (as_i64 timeout_seconds)

unfoldable pub is_connected : CameraConnection → Bool
is_connected c = elim c.state [ idle ↦ true | streaming ↦ true | _ ↦ false ]

unfoldable pub is_connection_healthy : ℕ → CameraConnection → Bool
is_connection_healthy now c = ltb_ℤ (div_trunc (sub_ℕ now c.last_keepalive) second_ns) (pos 30)

unfoldable pub update_keepalive : ℕ → CameraConnection → CameraConnection
update_keepalive now c = record c { last_keepalive = now }

unfoldable pub add_video_frame : Bytes → CameraConnection → CameraConnection
unfolding add_complete_frame
add_video_frame frame c = record c { stream_buffer = add_complete_frame frame c.stream_buffer }

unfoldable pub take_pending_command : CameraConnection → Option Bytes × CameraConnection
take_pending_command c = (c.pending_command, record c { pending_command = none })

abbrev pub push_new : ℕ → List ℕ → List ℕ
push_new pkg_id l = if not (elem pkg_id l) then l ++ pkg_id ∷ [] else l

unfoldable pub add_received_package : ℕ → CameraConnection → CameraConnection
add_received_package pkg_id c = record c { received_packages = push_new pkg_id c.received_packages }

unfoldable pub get_and_clear_received_packages : ℕ → CameraConnection → List ℕ × CameraConnection
get_and_clear_received_packages now c =
    (c.received_packages, record c { received_packages = []; last_retransmission_time = now })

-- `duration.num_milliseconds() >= 100`
unfoldable pub should_send_retransmission : ℕ → CameraConnection → Bool
should_send_retransmission now c =
    not (ltb_ℤ (div_trunc (sub_ℕ now c.last_retransmission_time) milli_ns) (pos 100))

unfoldable pub add_to_retransmission_bucket : ℕ → CameraConnection → CameraConnection
add_to_retransmission_bucket pkg_id c = record c {
  retransmission_bucket = push_new pkg_id c.retransmission_bucket;
}

unfoldable pub get_and_clear_retransmission_bucket : CameraConnection → List ℕ × CameraConnection
get_and_clear_retransmission_bucket c =
    (c.retransmission_bucket, record c { retransmission_bucket = [] })

unfoldable pub is_retransmission_bucket_empty : CameraConnection → Bool
is_retransmission_bucket_empty c = elim c.retransmission_bucket [ [] ↦ true | i ∷ is ↦ false ]
