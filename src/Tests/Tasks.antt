-- ===== src/Tests/Tasks.antt =====
-- Tasks that meet at the locks.
use a9_v.Prelude.{◌≤◌, ◌≡◌, refl, List, [], ◌∷◌, map, false, ◌⊎◌}
use a9_v.Tasks.{
  manager, camera, shared, exclusive, Code, finish, take, drop, System, task, waiter, system,
  is_free, held_for, running_hold, waiting_hold, Step, waits, granted, Run, stays, steps, start,
}
use a9_v.Tasks.Order.Progress.{AreFinished}
use a9_v.Tasks.Order.Ends.{sizes}
use a9_v.Tasks.Handlers.{list_cameras_locks}
use a9_v.Tasks.Handlers.Mix.{Handler, handle_heartbeat_task, list_cameras_task, code_of}
use a9_v.Tasks.Handlers.Ordered.{handlers-AreFinished}
use a9_v.Tasks.Queue.{Waits, Before}
use a9_v.Tasks.Handlers.Reentry
use a9_v.Tasks.Handlers.Reentry.{beating, reading_again, get_camera_info-AreStuck}
use a9_v.Tasks.Handlers.Deadlock.{
  confirming, updating, both, deadlocked, handle_video_frame-AreStuck,
}

abbrev handlers : List Handler
handlers = handle_heartbeat_task 7 ∷ list_cameras_task (7 ∷ []) ∷ []

abbrev listing : Code
listing = take shared (camera 7) (drop (drop finish))

abbrev beats : Code
beats = take exclusive (camera 7) (drop (drop finish))

-- The heartbeat has the manager, and the list of the cameras waits for it.
abbrev contended : System
contended =
    system (task ((manager, exclusive) ∷ []) beats ∷ []) (waiter [] shared manager listing ∷ [])

contended-Run : Run (start (map code_of handlers)) 3 contended
unfolding held_for running_hold waiting_hold
contended-Run =
    steps
      (steps
        (steps stays (
          waits [] (task [] (code_of (list_cameras_task (7 ∷ []))) ∷ []) [] exclusive manager beats
            refl refl))
        (granted [] [] [] exclusive manager beats refl tt refl refl))
      (waits (task ((manager, exclusive) ∷ []) beats ∷ []) [] [] shared manager listing refl refl)

handlers-AreFinished_example :
    (3 ≤ sizes (map code_of handlers)) × (AreFinished contended ⊎ ((u : System) × Step contended u))
handlers-AreFinished_example = handlers-AreFinished handlers (tt, (tt, tt)) contended-Run

-- A list of the cameras comes to wait behind the two that block each other.
abbrev blocked : System
blocked = system [] (updating 7 ∷ confirming 7 ∷ waiter [] shared manager listing ∷ [])

blocked-Run : Run (deadlocked 7 (list_cameras_locks (7 ∷ []) ∷ [])) 1 blocked
blocked-Run = steps stays (waits [] [] [] shared manager listing refl refl)

handle_video_frame-AreStuck_example :
    Run
      (both 7 (list_cameras_locks (7 ∷ []) ∷ []))
      11
      (deadlocked 7 (list_cameras_locks (7 ∷ []) ∷ []))
    × Waits (confirming 7) blocked.waiting
    × Waits (updating 7) blocked.waiting
    × (is_free shared manager blocked ≡ false)
    × (is_free exclusive manager blocked ≡ false)
handle_video_frame-AreStuck_example =
    handle_video_frame-AreStuck 7 (list_cameras_locks (7 ∷ []) ∷ []) blocked-Run

-- Another list of the cameras waits behind a request for information and a heartbeat.
abbrev queued : System
queued = system [] (beating 7 ∷ reading_again 7 ∷ waiter [] shared manager listing ∷ [])

queued-Run : Run (Reentry.deadlocked 7 [] (list_cameras_locks (7 ∷ []) ∷ [])) 1 queued
queued-Run = steps stays (waits [] [] [] shared manager listing refl refl)

get_camera_info-AreStuck_example :
    Run
      (Reentry.both 7 [] (list_cameras_locks (7 ∷ []) ∷ []))
      8
      (Reentry.deadlocked 7 [] (list_cameras_locks (7 ∷ []) ∷ []))
    × Before (beating 7) (reading_again 7) queued.waiting
    × (is_free exclusive manager queued ≡ false)
get_camera_info-AreStuck_example =
    get_camera_info-AreStuck 7 [] (list_cameras_locks (7 ∷ []) ∷ []) queued-Run
