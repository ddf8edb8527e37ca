-- ===== src/Tasks/Queue.antt =====
-- The waiters of a system: who is among them, and who came before whom.
use a9_v.Prelude.{◌≤◌, ◌≡◌, refl, List, [], ◌∷◌, ◌++◌, arith, ◌⊎◌, inl, inr}
use a9_v.Tasks.{Lock, Access, Waiter, held_for, waiting_hold}

pub data Waits (w : Waiter) : List Waiter → Type 0 where
  first : {ws : List Waiter} → Waits w (w ∷ ws)
  later : {v : Waiter} {ws : List Waiter} → Waits w ws → Waits w (v ∷ ws)

pub Waits-append :
    {w : Waiter} {ws : List Waiter} (vs : List Waiter) → Waits w ws → Waits w (ws ++ vs)
Waits-append vs first = first
Waits-append vs (later m) = later (Waits-append vs m)

-- Where one is taken out, the others stay.
pub Waits-taken :
    {w : Waiter} (ws vs : List Waiter) (v : Waiter)
    → Waits w (ws ++ v ∷ vs)
    → (w ≡ v) ⊎ Waits w (ws ++ vs)
Waits-taken [] vs v first = inl refl
Waits-taken [] vs v (later m) = inr m
Waits-taken (x ∷ ws) vs v first = inr first
Waits-taken (x ∷ ws) vs v (later m) = elim (Waits-taken ws vs v m) [
  | inl e ↦ inl e
  | inr n ↦ inr (later n)
]

pub Waits-hold :
    (a : Access) (l : Lock) {w : Waiter} {ws : List Waiter}
    → Waits w ws
    → held_for a l w.held ≤ waiting_hold a l ws
unfolding waiting_hold
Waits-hold a l first = omega arith
Waits-hold a l (later m) = omega (arith, Waits-hold a l m)

-- The first of two came before the second.
pub data Before (w v : Waiter) : List Waiter → Type 0 where
  now : {ws : List Waiter} → Waits v ws → Before w v (w ∷ ws)
  behind : {x : Waiter} {ws : List Waiter} → Before w v ws → Before w v (x ∷ ws)

pub Before-append :
    {w v : Waiter} {ws : List Waiter} (vs : List Waiter) → Before w v ws → Before w v (ws ++ vs)
Before-append vs (now m) = now (Waits-append vs m)
Before-append vs (behind b) = behind (Before-append vs b)

pub Before-Waits : {w v : Waiter} {ws : List Waiter} → Before w v ws → Waits w ws × Waits v ws
Before-Waits (now m) = (first, later m)
Before-Waits (behind b) = let (p, q) = Before-Waits b in (later p, later q)

-- Where one is taken out, it is the first, or the second with the first still before it, or neither.
pub Before-taken :
    {w v : Waiter} (ws vs : List Waiter) (x : Waiter)
    → Before w v (ws ++ x ∷ vs)
    → ((w ≡ x) ⊎ ((v ≡ x) × Waits w ws)) ⊎ Before w v (ws ++ vs)
Before-taken [] vs x (now m) = inl (inl refl)
Before-taken [] vs x (behind b) = inr b
Before-taken (y ∷ ws) vs x (now m) = elim (Waits-taken ws vs x m) [
  | inl e ↦ inl (inr (e, first))
  | inr n ↦ inr (now n)
]
Before-taken (y ∷ ws) vs x (behind b) = elim (Before-taken ws vs x b) [
  | inr n ↦ inr (behind n)
  | inl o ↦ inl (elim o [ inl e ↦ inl e | inr (e, m) ↦ inr (e, later m) ])
]
