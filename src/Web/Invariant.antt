-- ===== src/Web/Invariant.antt =====
-- The cameras under the requests and the tasks of src/web.
use a9_v.Prelude.{ℕ, ◌≡◌, refl, subst, Option, none, some, Bool-cases, inl, inr}
use a9_v.Runtime.{Host, M, World, Locks, Outcome, world_of, guards, skip, modify}
use a9_v.Runtime.Invariant.{
  IsSound, IsKept-refl, Keeps, skip-Keeps, pure-Keeps, or_fail-Keeps, bind-Keeps, seq-Keeps,
  attempt-Keeps, get_camera-Keeps, modify-Keeps,
}
use a9_v.Runtime.Invariant.Guards.{send-Keeps, camera_try_read-Keeps}
use a9_v.Tcp.{stopped}
use a9_v.Tcp.Invariant.{stopped-IsSoundCamera, optional-Keeps}
use a9_v.Tcp.Invariant.Messages.{start_streaming_for_camera-Keeps}
use a9_v.Web.{Json}
use a9_v.Web.Control.{
  Task, start_task, stop_task, snapshot_task, run_task, send_tcp_message, manager_try_write,
  camera_try_write, manager_try_read, connection_of, close_streams, send_stop,
}
use a9_v.Web.Routes.{Request, serve}
use a9_v.Web.Routes.ReadOnly.{Leaves, answers, panics, waits}
use a9_v.Web.Routes.ReadOnly.Answers.{serve-Leaves}

pub Leaves-world : {A P Q : Type 0} {w : World} {o : Outcome A} → Leaves P Q w o → w ≡ world_of o
Leaves-world (answers a) = refl
Leaves-world (panics p) = refl
Leaves-world (waits n l) = refl

-- The address that a task is for; one that only writes to a connection is for any.
abbrev pub address_of : ℕ → Task → ℕ
address_of any (start_task ip) = ip
address_of any (stop_task ip) = ip
address_of any (snapshot_task conn) = any

module _ {Value : Type 0} (host : Host Value) where
  pub serve-IsSound :
      (js : Json Value) (request : Request) (l : Locks) (w : World)
      → IsSound w
      → IsSound (world_of (serve host js request l w))
  serve-IsSound js request l w s = subst IsSound (Leaves-world (serve-Leaves host js request l w)) s

  send_tcp_message-Keeps : {ip : ℕ} (conn : ℕ) (v : Value) → Keeps ip (send_tcp_message host conn v)
  unfolding send_tcp_message
  send_tcp_message-Keeps conn v =
      bind-Keeps _ _ (or_fail-Keeps (host.to_string v)) (λ s. send-Keeps host _)

  manager_try_write-Keeps :
      {ip : ℕ} (m : M (Unit {0})) → Keeps ip m → Keeps ip (manager_try_write host m)
  unfolding manager_try_write
  manager_try_write-Keeps {ip} m h = record {
    keeps = λ l w s. elim (Bool-cases (host.write_granted l.manager)) [
      | inl e ↦ rw e (h.keeps _ w s)
      | inr e ↦ rw e (IsKept-refl ip w s)
    ];
  }

  camera_try_write-Keeps :
      (ip : ℕ) (m : M (Unit {0})) → Keeps ip m → Keeps ip (camera_try_write host ip m)
  unfolding camera_try_write
  camera_try_write-Keeps ip m h = record {
    keeps = λ l w s. elim (Bool-cases (host.write_granted (guards ip l))) [
      | inl e ↦ rw e (h.keeps _ w s)
      | inr e ↦ rw e (IsKept-refl ip w s)
    ];
  }

  manager_try_read-Keeps :
      {ip : ℕ} {A : Type 0} (m : M (Option A)) → Keeps ip m → Keeps ip (manager_try_read host m)
  unfolding manager_try_read
  manager_try_read-Keeps {ip} m h = record {
    keeps = λ l w s. elim (Bool-cases (host.read_granted l.manager)) [
      | inl e ↦ rw e (h.keeps _ w s)
      | inr e ↦ rw e (IsKept-refl ip w s)
    ];
  }

  connection_of-Keeps : (ip : ℕ) → Keeps ip (connection_of host ip)
  unfolding connection_of
  connection_of-Keeps ip =
      get_camera-Keeps ip _ (λ c s. camera_try_read-Keeps host ip _ (pure-Keeps c.tcp_conn))
        (pure-Keeps none)

  close_streams-Keeps : (ip : ℕ) → Keeps ip (close_streams host ip)
  unfolding close_streams
  close_streams-Keeps ip = manager_try_write-Keeps _ (
      get_camera-Keeps ip
        (λ o. elim o [ some _ ↦ camera_try_write host ip (modify ip stopped) | none ↦ skip ])
        (λ c s. camera_try_write-Keeps ip _ (modify-Keeps ip stopped stopped-IsSoundCamera))
        skip-Keeps)

  send_stop-Keeps : (ip : ℕ) → Keeps ip (send_stop host ip)
  unfolding send_stop
  send_stop-Keeps ip = bind-Keeps _ _ (manager_try_read-Keeps _ (connection_of-Keeps ip)) (λ o.
      optional-Keeps o _ skip (λ conn. attempt-Keeps _ (send_tcp_message-Keeps conn _)) skip-Keeps)

  pub run_task-Keeps : (any : ℕ) (task : Task) → Keeps (address_of any task) (run_task host task)
  unfolding run_task
  run_task-Keeps any (start_task ip) = attempt-Keeps _ (start_streaming_for_camera-Keeps host ip)
  run_task-Keeps any (stop_task ip) = seq-Keeps _ _ (close_streams-Keeps ip) (send_stop-Keeps ip)
  run_task-Keeps any (snapshot_task conn) = attempt-Keeps _ (send_tcp_message-Keeps conn _)
