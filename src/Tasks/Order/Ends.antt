-- ===== src/Tasks/Order/Ends.antt =====
-- Every run of the interleaved tasks is bounded, and where they take their locks in order it ends with
-- all of them at their end.
use a9_v.Prelude.{ℕ, ◌+◌, ◌≤◌, ◌<◌, ◌≡◌, refl, ap, List, [], ◌∷◌, ◌++◌, All, arith, ◌⊎◌}
use a9_v.Tasks.{
  Code, finish, take, drop, either, try_take, Guards, Task, Waiter, System, task, waiter, Act,
  drops, goes_left, goes_right, gets, gives_up, Step, acts, waits, granted, Run, stays, steps,
  start,
}
use a9_v.Tasks.Order.{IsOrdered, Run-AreOrdered}
use a9_v.Tasks.Order.Progress.{AreFinished, progress}

-- So many steps a task may take at most.
unfoldable pub size : Code → ℕ
size finish = 0
size (take a l c) = 2 + size c
size (drop c) = 1 + size c
size (either c d) = 1 + size c + size d
size (try_take a l c d) = 1 + size c + size d

unfoldable pub sizes : List Code → ℕ
unfolding size
sizes [] = 0
sizes (c ∷ cs) = size c + sizes cs

unfoldable running_size : List Task → ℕ
unfolding size
running_size [] = 0
running_size (t ∷ ts) = size t.code + running_size ts

unfoldable waiting_size : List Waiter → ℕ
unfolding size
waiting_size [] = 0
waiting_size (w ∷ ws) = 1 + size w.rest + waiting_size ws

abbrev measure : System → ℕ
measure s = running_size s.running + waiting_size s.waiting

running_size-append :
    (xs ys : List Task) → running_size (xs ++ ys) ≡ running_size xs + running_size ys
unfolding running_size
running_size-append [] ys = omega arith
running_size-append (x ∷ xs) ys = omega (arith, running_size-append xs ys)

waiting_size-append :
    (xs ys : List Waiter) → waiting_size (xs ++ ys) ≡ waiting_size xs + waiting_size ys
unfolding waiting_size
waiting_size-append [] ys = omega arith
waiting_size-append (x ∷ xs) ys = omega (arith, waiting_size-append xs ys)

Act-size :
    {s : System} {h : Guards} {c : Code} {h' : Guards} {c' : Code}
    → Act s h c h' c'
    → size c' < size c
unfolding size
Act-size (drops g h c) = omega arith
Act-size (goes_left h c d) = omega arith
Act-size (goes_right h c d) = omega arith
Act-size (gets h a l c d f) = omega arith
Act-size (gives_up h a l c d f) = omega arith

Step-measure : {s t : System} → Step s t → measure t < measure s
unfolding size running_size waiting_size
Step-measure {s} (acts xs ys h c h' c' act e q) = omega (
  arith,
  Act-size act,
  ap measure q,
  ap running_size e,
  running_size-append xs (task h c ∷ ys),
  running_size-append xs (task h' c' ∷ ys),
)
Step-measure {s} (waits xs ys h a l c e q) = omega (
  arith,
  ap measure q,
  ap running_size e,
  running_size-append xs (task h (take a l c) ∷ ys),
  running_size-append xs ys,
  waiting_size-append s.waiting (waiter h a l c ∷ []),
)
Step-measure {s} (granted ws vs h a l c e first f q) = omega (
  arith,
  ap measure q,
  ap waiting_size e,
  waiting_size-append ws (waiter h a l c ∷ vs),
  waiting_size-append ws vs,
)

start-measure : (cs : List Code) → measure (start cs) ≡ sizes cs
unfolding sizes running_size waiting_size
start-measure [] = refl
start-measure (c ∷ cs) = omega (arith, start-measure cs)

Run-measure : (cs : List Code) {n : ℕ} {t : System} → Run (start cs) n t → n + measure t ≤ sizes cs
Run-measure cs stays = omega (arith, start-measure cs)
Run-measure cs (steps r st) = omega (arith, Run-measure cs r, Step-measure st)

-- Tasks that take the manager's lock before a camera's and a camera's before a connection's, started
-- together and interleaved in any way: after any run all of them are at their end with no guard left,
-- or one of them can go on; and a run has no more steps than their sizes add up to.
pub Run-IsOrdered :
    (cs : List Code) {n : ℕ} {t : System}
    → All (λ c. IsOrdered c []) cs
    → Run (start cs) n t
    → (n ≤ sizes cs) × (AreFinished t ⊎ ((u : System) × Step t u))
Run-IsOrdered cs {t = t} o r = (omega (arith, Run-measure cs r), progress t (Run-AreOrdered cs o r))
