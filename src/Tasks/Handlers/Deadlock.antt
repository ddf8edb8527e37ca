-- ===== src/Tasks/Handlers/Deadlock.antt =====
-- `handle_video_frame` of src/router/udp.rs confirms the last packet of a frame under the write guard of
-- the camera, and takes the manager's lock for that. The handlers of src/router/tcp.rs take the
-- camera's lock under the write guard of the manager.
use a9_v.Prelude.{
  ℕ, ◌≡◌, refl, sym, subst, ◌∙◌, List, [], ◌∷◌, ◌++◌, map, true, false, arith, inl, inr,
}
use a9_v.Tasks.{
  Lock, manager, camera, Access, shared, exclusive, Code, finish, take, drop, either, try_take,
  Guards, Task, Waiter, System, task, waiter, system, held_for, running_hold, waiting_hold, is_free,
  drops, goes_left, goes_right, Step, acts, waits, granted, Run, stays, steps, start,
}
use a9_v.Tasks.Counts.{running_hold-start}
use a9_v.Tasks.Queue.{Waits, first, later, Waits-append, Waits-taken, Waits-hold}
use a9_v.Tasks.Handlers.Mix.{handle_video_frame_task, handle_heartbeat_task, code_of}

-- The task of the datagram, which waits for the manager and has the camera.
abbrev pub confirming : ℕ → Waiter
confirming ip = waiter ((camera ip, exclusive) ∷ []) shared manager (
    either (drop (drop finish))
      (try_take shared (camera ip) (drop (drop (drop finish))) (drop (drop finish))))

-- The task of the connection, which waits for the camera and has the manager.
abbrev pub updating : ℕ → Waiter
updating ip = waiter ((manager, exclusive) ∷ []) exclusive (camera ip) (drop (drop finish))

pub record AreStuck (ip : ℕ) (s : System) : Type 0 where
  pub datagram : Waits (confirming ip) s.waiting
  pub connection : Waits (updating ip) s.waiting

not_free_manager : (a : Access) {ip : ℕ} {s : System} → AreStuck ip s → is_free a manager s ≡ false
unfolding held_for
not_free_manager shared s = ground (arith, Waits-hold exclusive manager s.connection)
not_free_manager exclusive s = ground (arith, Waits-hold exclusive manager s.connection)

not_free_camera : {ip : ℕ} {s : System} → AreStuck ip s → is_free exclusive (camera ip) s ≡ false
unfolding held_for
not_free_camera {ip} s = ground (arith, Waits-hold exclusive (camera ip) s.datagram)

Step-AreStuck : {ip : ℕ} {s t : System} → AreStuck ip s → Step s t → AreStuck ip t
Step-AreStuck {ip} p (acts xs ys h c h' c' act e q) =
    subst (AreStuck ip) (sym q) (record { datagram = p.datagram; connection = p.connection })
Step-AreStuck {ip} p (waits xs ys h a l c e q) =
    subst (AreStuck ip) (sym q)
      (record { datagram = Waits-append _ p.datagram; connection = Waits-append _ p.connection })
Step-AreStuck {ip} {s} p (granted ws vs h a l c e others f q) =
    subst (AreStuck ip) (sym q) (record {
      datagram = stays_in (confirming ip) (not_free_manager shared p) p.datagram;
      connection = stays_in (updating ip) (not_free_camera p) p.connection;
    })
  where
    stays_in :
        (w : Waiter) → is_free w.access w.lock s ≡ false → Waits w s.waiting → Waits w (ws ++ vs)
    stays_in w n m = elim (Waits-taken ws vs (waiter h a l c) (subst (Waits w) e m)) [
      | inr m' ↦ m'
      | inl i ↦ absurd (different (sym (subst (λ v. is_free v.access v.lock s ≡ false) i n) ∙ f))
    ]
      where
        different : false ≡ true → Prim.⊥
        different b = cc

Run-AreStuck :
    (ip : ℕ) {s : System} {n : ℕ} {t : System} → AreStuck ip s → Run s n t → AreStuck ip t
Run-AreStuck ip p stays = p
Run-AreStuck ip p (steps r st) = Step-AreStuck (Run-AreStuck ip p r) st

module _ (ip : ℕ) (others : List Code) where
  abbrev pub both : System
  both =
      start
        (code_of (handle_video_frame_task true ip) ∷ code_of (handle_heartbeat_task ip) ∷ others)

  abbrev pub deadlocked : System
  deadlocked = system (map (task []) others) (updating ip ∷ confirming ip ∷ [])

  abbrev pub rest : List Task
  rest = map (task []) others

  -- What the datagram's task has left to do, and the connection's.
  abbrev with_camera : Code
  with_camera = either (take shared manager (confirming ip).rest) (drop finish)

  abbrev with_manager : Code
  with_manager = take exclusive (camera ip) with_camera

  abbrev heartbeat_code : Code
  heartbeat_code = code_of (handle_heartbeat_task ip)

  abbrev heartbeat : Task
  heartbeat = task [] heartbeat_code

  abbrev camera_guard : Guards
  camera_guard = (camera ip, exclusive) ∷ []

  abbrev manager_guard : Guards
  manager_guard = (manager, exclusive) ∷ []

  -- Nobody has a lock but those shown.
  free_for_first :
      (l : Lock)
      → is_free exclusive l (system (heartbeat ∷ rest) (waiter [] exclusive l with_camera ∷ []))
        ≡ true
  unfolding running_hold waiting_hold held_for
  free_for_first l =
      ground (arith, running_hold-start shared l others, running_hold-start exclusive l others)

  free_for_second :
      is_free exclusive manager (
        system
          (task camera_guard (take shared manager (confirming ip).rest) ∷ rest)
          (waiter [] exclusive manager (take exclusive (camera ip) (drop (drop finish))) ∷ []))
      ≡ true
  unfolding running_hold waiting_hold held_for
  free_for_second =
      ground (
        arith,
        running_hold-start shared manager others,
        running_hold-start exclusive manager others,
      )

  datagram_first : Run both 6 (system (task camera_guard with_camera ∷ heartbeat ∷ rest) [])
  unfolding waiting_hold
  datagram_first =
      steps
        (steps
          (steps
            (steps
              (steps
                (steps stays
                  (acts [] (heartbeat ∷ rest) [] _ [] _ (goes_right [] finish _) refl refl))
                (waits [] (heartbeat ∷ rest) [] exclusive manager (drop with_manager) refl refl))
              (granted [] [] [] exclusive manager (drop with_manager) refl tt
                (free_for_first manager) refl))
            (acts [] (heartbeat ∷ rest) manager_guard (drop with_manager) [] with_manager
              (drops (manager, exclusive) [] with_manager) refl refl))
          (waits [] (heartbeat ∷ rest) [] exclusive (camera ip) with_camera refl refl))
        (granted [] [] [] exclusive (camera ip) with_camera refl tt (free_for_first (camera ip))
          refl)

  both_wait : Run both 11 deadlocked
  both_wait =
      steps
        (steps
          (steps
            (steps
              (steps datagram_first (
                acts [] (heartbeat ∷ rest) camera_guard with_camera camera_guard
                  (take shared manager (confirming ip).rest)
                  (goes_left camera_guard (take shared manager (confirming ip).rest) (drop finish))
                  refl refl))
              (waits (task camera_guard (take shared manager (confirming ip).rest) ∷ []) rest []
                exclusive manager (take exclusive (camera ip) (drop (drop finish))) refl refl))
            (granted [] [] [] exclusive manager (take exclusive (camera ip) (drop (drop finish)))
              refl tt free_for_second refl))
          (waits [] (task camera_guard (take shared manager (confirming ip).rest) ∷ rest)
            manager_guard exclusive (camera ip) (drop (drop finish)) refl refl))
        (waits [] rest camera_guard shared manager (confirming ip).rest refl refl)

  deadlocked-AreStuck : AreStuck ip deadlocked
  deadlocked-AreStuck = record { datagram = later first; connection = first }

  -- The task of a camera's last packet of a frame over UDP and that of a heartbeat of the same camera
  -- over TCP, started with any other tasks, come in eleven steps to a state where the first has the
  -- camera and waits for the manager, and the second has the manager and waits for the camera. After
  -- any run from there both still wait, and nobody gets the manager's lock, for reading or writing.
  pub handle_video_frame-AreStuck :
      {n : ℕ} {t : System}
      → Run deadlocked n t
      → Run both 11 deadlocked
        × Waits (confirming ip) t.waiting
        × Waits (updating ip) t.waiting
        × (is_free shared manager t ≡ false)
        × (is_free exclusive manager t ≡ false)
  handle_video_frame-AreStuck r =
      let p = Run-AreStuck ip deadlocked-AreStuck r in
      (both_wait, p.datagram, p.connection, not_free_manager shared p, not_free_manager exclusive p)
