-- ===== src/Tcp/Safety.antt =====
-- Which handlers of src/router/tcp.rs can wait for themselves.
use a9_v.Prelude.{ℕ, ◌≡◌, [], ◌∷◌, length, Option, none, some, arith, Option-cases, inl, inr}
use a9_v.Prelude.Map.{lookup}
use a9_v.Wire.{Bytes}
use a9_v.Camera.{CameraConnection}
use a9_v.Runtime.{
  Host, World, M, Outcome, done, failed, panicked, stuck, tcp, Packet, Locks, reading, queued,
  idle_locks, get_camera, send, manager_write, manager_read, update_camera, skip, then_do, ◌>>=◌,
  ◌>>◌,
}
use a9_v.Runtime.Cells.{reading_both, manager_read-idle, camera_read-manager, update_camera-idle}
use a9_v.Tcp.{
  with_connection, clone_connection, write_json, write_status, header_bytes,
  handle_device_info_request, code_value,
}
use a9_v.Runtime.Sends.{Delivers, sent}
use a9_v.Tcp.Effects.{with_connection-some, write_json-sent}

-- The locks while the handler of code 51 waits: a guard for reading on the manager and on the
-- camera, and its own request to write the manager.
abbrev pub waiting : ℕ → Locks
waiting ip = record { manager = queued ∷ reading ∷ []; cameras = (ip, reading ∷ []) ∷ [] }

-- The handler panics or never returns.
abbrev pub IsLost {ℓ} : {A : Type ℓ} → Outcome A → Type 0
IsLost (done a w) = ⊥
IsLost (failed w) = ⊥
IsLost (panicked w) = Unit
IsLost (stuck l w) = Unit

-- The handler ends with a value or an error.
abbrev pub Ends {ℓ} : {A : Type ℓ} → Outcome A → Type 0
Ends o = ¬ IsLost o

-- Started with no lock, the handler ends.
pub record Returns (m : M (Unit {0})) : Type 0 where
  pub returns : (w : World) → Ends (m idle_locks w)

module _ {Value : Type 0} (host : Host Value) where
  update_camera-reading :
      (ip : ℕ) (f : CameraConnection → CameraConnection) (w : World)
      → update_camera host ip f (reading_both ip) w ≡ stuck (waiting ip) w
  unfolding update_camera manager_write
  update_camera-reading ip f w = rw host.write_excluded

  -- On a connected camera whose writes succeed, the handler of a code 51 message, started with no lock
  -- held, never returns: it
  -- asks to write the manager while it holds a guard for reading it. Under the locks that it
  -- leaves every task that
  -- asks for the manager, to read or to write, waits for ever.
  pub handle_device_info_request-deadlock :
      (ip conn : ℕ) (s : Bytes) (c : CameraConnection) (w : World)
      → lookup ip w.manager.cameras ≡ some c
      → c.tcp_conn ≡ some conn
      → Delivers host
      → host.to_string (code_value host 50) ≡ some s
      → (w' : World) × (handle_device_info_request host ip idle_locks w ≡ stuck (waiting ip) w')
        × ((m : M (Unit {0})) (v : World)
            → IsLost (manager_read host m (waiting ip) v)
              × IsLost (manager_write host m (waiting ip) v))
  unfolding handle_device_info_request manager_read manager_write
  handle_device_info_request-deadlock ip conn s c w e t d p = (
    sent (tcp conn s) (sent (tcp conn (header_bytes host (length s))) w),
    rw (
      with_connection-some host ip conn _ c w e t,
      write_json-sent host conn (code_value host 50) s (reading_both ip) w d p,
      update_camera-reading,
    ),
    λ m v. (rw host.read_queued tt, rw host.write_excluded tt),
  )

  pub then_do-Ends :
      {A B : Type 0} (o : Outcome A) (f : A → World → Outcome B)
      → Ends o
      → ((a : A) (w : World) → Ends (f a w))
      → Ends (then_do f o)
  then_do-Ends (done a w) f h k = k a w
  then_do-Ends (failed w) f h k = λ b. b
  then_do-Ends (panicked w) f h k = absurd (h tt)
  then_do-Ends (stuck l w) f h k = absurd (h tt)

  pub >>-Returns : (m k : M (Unit {0})) → Returns m → Returns k → Returns (m >> k)
  >>-Returns m k h g = record {
    returns = λ w. then_do-Ends (m idle_locks w) _ (h.returns w) (λ _ v. g.returns v);
  }

  pub update_camera-Returns :
      (ip : ℕ) (f : CameraConnection → CameraConnection) → Returns (update_camera host ip f)
  update_camera-Returns ip f = record { returns = λ w. rw update_camera-idle (λ b. b) }

  pub send-Ends : (p : Packet) (l : Locks) (w : World) → Ends (send host p l w)
  unfolding send
  send-Ends p l w = ground arith

  pub write_json-Ends :
      (conn : ℕ) (v : Value) (l : Locks) (w : World) → Ends (write_json host conn v l w)
  unfolding write_json
  write_json-Ends conn v l w = elim (Option-cases (host.to_string v)) [
    | inl e ↦ rw e (λ b. b)
    | inr (s, e) ↦ rw e (
        then_do-Ends (send host (tcp conn (header_bytes host (length s))) l w) _ (send-Ends _ l w)
          (λ _ v. send-Ends _ l v))
  ]

  with_connection-Ends :
      (ip : ℕ) (k : ℕ → M (Unit {0}))
      → ((conn : ℕ) (w : World) → Ends (k conn (reading_both ip) w))
      → (w : World) → Ends (with_connection host ip k idle_locks w)
  unfolding with_connection get_camera
  with_connection-Ends ip k h w = elim (Option-cases (lookup ip w.manager.cameras)) [
    | inl e ↦ rw (manager_read-idle, e) (λ b. b)
    | inr (c, e) ↦ elim (Option-cases c.tcp_conn) [
      | inl t ↦ rw (manager_read-idle, e, camera_read-manager, e, t) (λ b. b)
      | inr (conn, t) ↦ rw (manager_read-idle, e, camera_read-manager, e, t) (h conn w)
    ]
  ]

  pub with_connection-Returns :
      (ip : ℕ) (k : ℕ → M (Unit {0}))
      → ((conn : ℕ) (w : World) → Ends (k conn (reading_both ip) w))
      → Returns (with_connection host ip k)
  with_connection-Returns ip k h = record { returns = λ w. with_connection-Ends ip k h w }

  pub clone_connection-cases :
      (ip : ℕ) (w : World) → (t : Option ℕ) × (clone_connection host ip idle_locks w ≡ done t w)
  unfolding clone_connection get_camera
  clone_connection-cases ip w = elim (Option-cases (lookup ip w.manager.cameras)) [
    | inl e ↦ (none, rw (manager_read-idle, e))
    | inr (c, e) ↦ (c.tcp_conn, rw (manager_read-idle, e, camera_read-manager, e))
  ]

  pub cloned-Returns :
      (ip : ℕ) (k : ℕ → M (Unit {0}))
      → ((conn : ℕ) → Returns (k conn))
      → Returns (clone_connection host ip >>= λ t. elim t [ some conn ↦ k conn | none ↦ skip ])
  cloned-Returns ip k h = record {
    returns = λ w.
        let (t, e) = clone_connection-cases ip w in
        elim (Option-cases t) [
          | inl n ↦ rw (e, n) (λ b. b)
          | inr (conn, n) ↦ rw (e, n) ((h conn).returns w)
        ];
  }

  pub write_status-Returns : (ip code status : ℕ) → Returns (write_status host ip code status)
  unfolding write_status
  write_status-Returns ip code status = record {
    returns = λ w.
        elim (Option-cases (host.status_to_string (record { code = code; status = status }))) [
          | inl e ↦ rw e (λ b. b)
          | inr (s, e) ↦ rw e ((with_connection-Returns ip _ (λ conn v. send-Ends _ _ v)).returns w)
        ];
  }

  pub write_json-Returns : (conn : ℕ) (v : Value) → Returns (write_json host conn v)
  write_json-Returns conn v = record { returns = λ w. write_json-Ends conn v idle_locks w }
