-- ===== src/Tasks/Handlers/Reentry.antt =====
-- `get_camera_info` of src/web/camera_endpoints.rs takes the manager's lock for reading twice, and a
-- handler of src/router/tcp.rs comes to wait for writing between the two.
use a9_v.Prelude.{
  ℕ, ◌≡◌, refl, sym, subst, List, [], ◌∷◌, ◌++◌, All, map, false, true, arith, ◌⊎◌, inl, inr,
}
use a9_v.Tasks.{
  Lock, manager, camera, shared, exclusive, Code, finish, take, drop, either, try_take, Guards,
  Task, Waiter, System, task, waiter, system, held_for, running_hold, waiting_hold, is_free,
  same_lock, IsForOther, drops, goes_left, Step, acts, waits, granted, Run, stays, steps, start,
}
use a9_v.Tasks.Counts.{running_hold-start}
use a9_v.Tasks.Queue.{
  Waits, first, Waits-hold, Before, now, Before-append, Before-Waits, Before-taken,
}
use a9_v.Tasks.Handlers.{search_locks}
use a9_v.Tasks.Handlers.Mix.{get_camera_info_task, handle_heartbeat_task, code_of}

-- The writer, which waits for the manager.
abbrev pub beating : ℕ → Waiter
beating ip = waiter [] exclusive manager (take exclusive (camera ip) (drop (drop finish)))

-- The reader, which has the manager for reading and waits for it again.
abbrev pub reading_again : ℕ → Waiter
reading_again ip = waiter ((manager, shared) ∷ []) shared manager (
    either (drop (drop finish))
      (try_take shared (camera ip) (drop (drop (drop finish))) (drop (drop finish))))

abbrev AreStuck : ℕ → System → Type 0
AreStuck ip s = Before (beating ip) (reading_again ip) s.waiting

not_free : (ip : ℕ) (s : System) → AreStuck ip s → is_free exclusive manager s ≡ false
unfolding held_for
not_free ip s b = ground (arith, Waits-hold shared manager (Before-Waits b).1)

All-Waits : (P : Waiter → Type 0) {w : Waiter} {ws : List Waiter} → Waits w ws → All P ws → P w
All-Waits P first h = h.0
All-Waits P (Waits.later m) h = All-Waits P m h.1

Step-AreStuck : (ip : ℕ) {s t : System} → AreStuck ip s → Step s t → AreStuck ip t
Step-AreStuck ip p (acts xs ys h c h' c' act e q) = subst (AreStuck ip) (sym q) p
Step-AreStuck ip p (waits xs ys h a l c e q) = subst (AreStuck ip) (sym q) (Before-append _ p)
Step-AreStuck ip {s} p (granted ws vs h a l c e others f q) = subst (AreStuck ip) (sym q) (
    stay (Before-taken ws vs (waiter h a l c) (subst (Before (beating ip) (reading_again ip)) e p)))
  where
    free_writer : beating ip ≡ waiter h a l c → Prim.⊥
    free_writer i =
        let n : is_free a l s ≡ false =
          subst (λ v. is_free v.access v.lock s ≡ false) i (not_free ip s p) in
        cc

    second_first : reading_again ip ≡ waiter h a l c → Waits (beating ip) ws → Prim.⊥
    second_first i m =
        let o : same_lock manager manager ≡ false =
          All-Waits (λ v. same_lock v.lock manager ≡ false) m
            (subst (λ (v : Waiter). All (IsForOther v.lock) ws) (sym i) others) in
        cc

    stay :
        ((beating ip ≡ waiter h a l c)
            ⊎ ((reading_again ip ≡ waiter h a l c) × Waits (beating ip) ws))
          ⊎ Before (beating ip) (reading_again ip) (ws ++ vs)
        → Before (beating ip) (reading_again ip) (ws ++ vs)
    stay (inr b) = b
    stay (inl (inl i)) = absurd (free_writer i)
    stay (inl (inr (i, m))) = absurd (second_first i m)

Run-AreStuck :
    (ip : ℕ) {s : System} {n : ℕ} {t : System} → AreStuck ip s → Run s n t → AreStuck ip t
Run-AreStuck ip p stays = p
Run-AreStuck ip p (steps r st) = Step-AreStuck ip (Run-AreStuck ip p r) st

module _ (ip : ℕ) (ips : List ℕ) (others : List Code) where
  abbrev rest : List Task
  rest = map (task []) others

  abbrev pub both : System
  both =
      start
        (code_of (get_camera_info_task (ip ∷ ips) ip) ∷ code_of (handle_heartbeat_task ip) ∷ others)

  abbrev pub deadlocked : System
  deadlocked = system rest (beating ip ∷ reading_again ip ∷ [])

  abbrev heartbeat : Task
  heartbeat = task [] (code_of (handle_heartbeat_task ip))

  abbrev again : Code
  again = take shared manager (reading_again ip).rest

  abbrev missing : Code
  missing = search_locks ips again (drop finish)

  abbrev manager_guard : Guards
  manager_guard = (manager, shared) ∷ []

  abbrev both_guards : Guards
  both_guards = (camera ip, shared) ∷ (manager, shared) ∷ []

  abbrev after_camera : Code
  after_camera = drop (either again missing)

  -- Nobody has a lock for writing.
  free_to_read :
      (l : Lock) (h : Guards) (c : Code)
      → held_for exclusive l h ≡ 0
      → is_free shared l (system (heartbeat ∷ rest) (waiter h shared l c ∷ [])) ≡ true
  unfolding running_hold waiting_hold held_for
  free_to_read l h c e = ground (arith, e, running_hold-start exclusive l others)

  camera_read_first : Run both 4 (system (task both_guards after_camera ∷ heartbeat ∷ rest) [])
  unfolding waiting_hold held_for
  camera_read_first =
      steps
        (steps
          (steps
            (steps stays (
              waits [] (heartbeat ∷ rest) [] shared manager (take shared (camera ip) after_camera)
                refl refl))
            (granted [] [] [] shared manager (take shared (camera ip) after_camera) refl tt
              (free_to_read manager [] (take shared (camera ip) after_camera) refl) refl))
          (waits [] (heartbeat ∷ rest) manager_guard shared (camera ip) after_camera refl refl))
        (granted [] [] manager_guard shared (camera ip) after_camera refl tt
          (free_to_read (camera ip) manager_guard after_camera refl) refl)

  both_wait : Run both 8 deadlocked
  both_wait =
      steps
        (steps
          (steps
            (steps camera_read_first (
              acts [] (heartbeat ∷ rest) both_guards after_camera manager_guard
                (either again missing)
                (drops (camera ip, shared) manager_guard (either again missing)) refl refl))
            (acts [] (heartbeat ∷ rest) manager_guard (either again missing) manager_guard again
              (goes_left manager_guard again missing) refl refl))
          (waits (task manager_guard again ∷ []) rest [] exclusive manager (beating ip).rest refl
            refl))
        (waits [] rest manager_guard shared manager (reading_again ip).rest refl refl)

  -- A request for the information on the first camera that is searched and a heartbeat of this camera
  -- over TCP, started with any other tasks, come in eight steps to a state where the heartbeat waits
  -- for the manager and the request, which has the manager for reading, waits for it behind the
  -- heartbeat. After any run from there both still wait, in this order, and nobody gets the manager
  -- for writing.
  pub get_camera_info-AreStuck :
      {n : ℕ} {t : System}
      → Run deadlocked n t
      → Run both 8 deadlocked
        × Before (beating ip) (reading_again ip) t.waiting
        × (is_free exclusive manager t ≡ false)
  get_camera_info-AreStuck r =
      let p = Run-AreStuck ip (now first) r in (both_wait, p, not_free ip _ p)
