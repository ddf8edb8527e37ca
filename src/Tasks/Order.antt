-- ===== src/Tasks/Order.antt =====
-- Tasks that take the manager's lock before a camera's, and a camera's before a connection's.
pub mod Progress
pub mod Ends
use Prim.{⊥}
use a9_v.Prelude.{
  ℕ, ◌+◌, ◌≤◌, ◌<◌, ◌≡◌, refl, sym, ap, subst, ◌∙◌, List, [], ◌∷◌, ◌++◌, All, All-append,
  All-append_inv, map, arith,
}
use a9_v.Tasks.{
  Lock, manager, camera, connection, Access, Code, finish, take, drop, either, try_take, Guards,
  Task, Waiter, System, task, waiter, system, Act, drops, goes_left, goes_right, gets, gives_up,
  Step, acts, waits, granted, Run, stays, steps, start,
}

abbrev pub rank : Lock → ℕ
rank manager = 0
rank (camera i) = 1
rank (connection i) = 2

abbrev pub IsBelow : Lock → Lock × Access → Type 0
IsBelow l g = rank g.0 < rank l

-- A task with these guards waits only for locks of a higher rank, and drops all its guards.
abbrev pub IsOrdered : Code → Guards → Type 0
IsOrdered finish h = h ≡ []
IsOrdered (take a l c) h = All (IsBelow l) h × IsOrdered c ((l, a) ∷ h)
IsOrdered (drop c) [] = ⊥
IsOrdered (drop c) (g ∷ h) = IsOrdered c h
IsOrdered (either c d) h = IsOrdered c h × IsOrdered d h
IsOrdered (try_take a l c d) h = IsOrdered c ((l, a) ∷ h) × IsOrdered d h

abbrev pub IsOrderedTask : Task → Type 0
IsOrderedTask t = IsOrdered t.code t.held

abbrev pub IsOrderedWaiter : Waiter → Type 0
IsOrderedWaiter w = All (IsBelow w.lock) w.held × IsOrdered w.rest ((w.lock, w.access) ∷ w.held)

pub record AreOrdered (s : System) : Type 0 where
  pub running : All IsOrderedTask s.running
  pub waiting : All IsOrderedWaiter s.waiting

Act-IsOrdered :
    {s : System} {h : Guards} {c : Code} {h' : Guards} {c' : Code}
    → Act s h c h' c'
    → IsOrdered c h
    → IsOrdered c' h'
Act-IsOrdered (drops g h c) o = o
Act-IsOrdered (goes_left h c d) o = o.0
Act-IsOrdered (goes_right h c d) o = o.1
Act-IsOrdered (gets h a l c d f) o = o.0
Act-IsOrdered (gives_up h a l c d f) o = o.1

pub Step-AreOrdered : {s t : System} → AreOrdered s → Step s t → AreOrdered t
Step-AreOrdered {s} o (acts xs ys h c h' c' act e q) =
    let (before, mine, after) = parts in
    subst AreOrdered (sym q) (record {
      running =
          All-append IsOrderedTask xs (task h' c' ∷ ys) before (Act-IsOrdered act mine, after);
      waiting = o.waiting;
    })
  where
    parts : All IsOrderedTask xs × IsOrdered c h × All IsOrderedTask ys
    parts =
        let (p, q) =
          All-append_inv IsOrderedTask xs (task h c ∷ ys) (subst (All IsOrderedTask) e o.running) in
        (p, q.0, q.1)
Step-AreOrdered {s} o (waits xs ys h a l c e q) =
    let (before, mine) =
      All-append_inv IsOrderedTask xs (task h (take a l c) ∷ ys)
        (subst (All IsOrderedTask) e o.running) in
    subst AreOrdered (sym q) (record {
      running = All-append IsOrderedTask xs ys before mine.1;
      waiting = All-append IsOrderedWaiter s.waiting (waiter h a l c ∷ []) o.waiting (mine.0, tt);
    })
Step-AreOrdered {s} o (granted ws vs h a l c e first f q) =
    let (before, mine) =
      All-append_inv IsOrderedWaiter ws (waiter h a l c ∷ vs)
        (subst (All IsOrderedWaiter) e o.waiting) in
    subst AreOrdered (sym q) (record {
      running = (mine.0.1, o.running);
      waiting = All-append IsOrderedWaiter ws vs before mine.1;
    })

start-AreOrdered : (cs : List Code) → All (λ c. IsOrdered c []) cs → AreOrdered (start cs)
start-AreOrdered cs o = record { running = each cs o; waiting = tt }
  where
    each : (cs : List Code) → All (λ c. IsOrdered c []) cs → All IsOrderedTask (map (task []) cs)
    each [] o = tt
    each (c ∷ cs) o = (o.0, each cs o.1)

pub Run-AreOrdered :
    (cs : List Code) {n : ℕ} {t : System}
    → All (λ c. IsOrdered c []) cs
    → Run (start cs) n t
    → AreOrdered t
Run-AreOrdered cs o stays = start-AreOrdered cs o
Run-AreOrdered cs o (steps r st) = Step-AreOrdered (Run-AreOrdered cs o r) st
