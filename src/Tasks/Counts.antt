-- ===== src/Tasks/Counts.antt =====
-- Counting guards over the tasks of a system.
use a9_v.Prelude.{◌+◌, ◌≡◌, refl, List, [], ◌∷◌, ◌++◌, map, arith}
use a9_v.Tasks.{Access, Lock, Code, Task, Waiter, task, held_for, running_hold, waiting_hold}

pub running_hold-append :
    (a : Access) (l : Lock) (xs ys : List Task)
    → running_hold a l (xs ++ ys) ≡ running_hold a l xs + running_hold a l ys
unfolding running_hold
running_hold-append a l [] ys = omega arith
running_hold-append a l (x ∷ xs) ys = omega (arith, running_hold-append a l xs ys)

pub waiting_hold-append :
    (a : Access) (l : Lock) (xs ys : List Waiter)
    → waiting_hold a l (xs ++ ys) ≡ waiting_hold a l xs + waiting_hold a l ys
unfolding waiting_hold
waiting_hold-append a l [] ys = omega arith
waiting_hold-append a l (x ∷ xs) ys = omega (arith, waiting_hold-append a l xs ys)

-- A task that has just been started has no guard.
pub running_hold-start :
    (a : Access) (l : Lock) (cs : List Code) → running_hold a l (map (task []) cs) ≡ 0
unfolding running_hold held_for
running_hold-start a l [] = refl
running_hold-start a l (c ∷ cs) = omega (arith, running_hold-start a l cs)
