-- ===== src/Tasks/Order/Progress.antt =====
-- Tasks that take their locks in order never all wait for one another, and end after a bounded number
-- of steps.
use a9_v.Prelude.{
  ℕ, ◌≤◌, ◌<◌, ◌≡◌, refl, sym, ap, subst, ◌∙◌, List, [], ◌∷◌, ◌++◌, All, append_assoc, arith, ◌⊎◌,
  inl, inr, Bool-cases, leb, leb→le, true, false,
}
use a9_v.Tasks.{
  Lock, manager, camera, connection, Access, shared, exclusive, Code, finish, take, drop, either,
  try_take, same_lock, Guards, Task, Waiter, System, task, held_for, running_hold, waiting_hold,
  is_free, is_open, IsForOther, drops, goes_left, gets, gives_up, Step, acts, waits, granted,
}
use a9_v.Tasks.Order.{rank, IsBelow, IsOrdered, IsOrderedTask, IsOrderedWaiter, AreOrdered}

-- A task that has come to its end, with no guard.
abbrev pub IsAtEnd : Task → Type 0
IsAtEnd t = (t.code ≡ finish) × (t.held ≡ [])

pub record AreFinished (s : System) : Type 0 where
  pub running : All IsAtEnd s.running
  pub waiting : s.waiting ≡ []

abbrev CanStep : System → Type 0
CanStep s = (t : System) × Step s t

-- A task that is not at its end can go on.
task_steps :
    (s : System) (xs ys : List Task) (c : Code) (h : Guards)
    → IsOrdered c h
    → s.running ≡ xs ++ task h c ∷ ys
    → ((c ≡ finish) × (h ≡ [])) ⊎ CanStep s
task_steps s xs ys finish h o e = inl (refl, o)
task_steps s xs ys (take a l c) h o e = inr (_, waits xs ys h a l c e refl)
task_steps s xs ys (drop c) [] o e = absurd o
task_steps s xs ys (drop c) (g ∷ h) o e =
    inr (_, acts xs ys (g ∷ h) (drop c) h c (drops g h c) e refl)
task_steps s xs ys (either c d) h o e =
    inr (_, acts xs ys h (either c d) h c (goes_left h c d) e refl)
task_steps s xs ys (try_take a l c d) h o e = inr (elim (Bool-cases (is_open a l s)) [
  | inl f ↦ (_, acts xs ys h (try_take a l c d) ((l, a) ∷ h) c (gets h a l c d f) e refl)
  | inr f ↦ (_, acts xs ys h (try_take a l c d) h d (gives_up h a l c d f) e refl)
])

running_steps :
    (s : System) (xs ys : List Task)
    → All IsOrderedTask ys
    → s.running ≡ xs ++ ys
    → All IsAtEnd ys ⊎ CanStep s
running_steps s xs [] o e = inl tt
running_steps s xs (t ∷ ys) o e = elim (task_steps s xs ys t.code t.held o.0 e) [
  | inr st ↦ inr st
  | inl done ↦
      elim (running_steps s (xs ++ t ∷ []) ys o.1 (e ∙ sym (append_assoc xs (t ∷ []) ys))) [
        | inl rest ↦ inl (done, rest)
        | inr st ↦ inr st
      ]
]

-- Tasks at their end hold nothing.
end_hold : (a : Access) (l : Lock) (ts : List Task) → All IsAtEnd ts → running_hold a l ts ≡ 0
unfolding running_hold held_for
end_hold a l [] h = refl
end_hold a l (t ∷ ts) h = rw h.0.1 (omega (arith, end_hold a l ts h.1))

lower_other : (k l : Lock) → rank k < rank l → same_lock k l ≡ false
lower_other manager manager h = absurd (omega arith)
lower_other manager (camera j) h = refl
lower_other manager (connection j) h = refl
lower_other (camera i) manager h = refl
lower_other (camera i) (camera j) h = absurd (omega arith)
lower_other (camera i) (connection j) h = refl
lower_other (connection i) manager h = refl
lower_other (connection i) (camera j) h = refl
lower_other (connection i) (connection j) h = absurd (omega arith)

below_hold :
    (a : Access) (l k : Lock) (h : Guards)
    → rank k ≤ rank l
    → All (IsBelow k) h
    → held_for a l h ≡ 0
unfolding held_for
below_hold a l k [] le b = refl
below_hold a l k ((j, x) ∷ h) le b =
    rw (lower_other j l (omega arith)) (omega (arith, below_hold a l k h le b.1))

highest_hold :
    (a : Access) (l : Lock) (ws : List Waiter)
    → All IsOrderedWaiter ws
    → All (λ w. rank w.lock ≤ rank l) ws
    → waiting_hold a l ws ≡ 0
unfolding waiting_hold
highest_hold a l [] o h = refl
highest_hold a l (w ∷ ws) o h =
    omega (arith, below_hold a l w.lock w.held h.0 o.0.0, highest_hold a l ws o.1 h.1)

-- The first that waits for a lock of the highest rank that anybody waits for.
record Top (ws : List Waiter) : Type 0 where
  before : List Waiter
  first : Waiter
  after : List Waiter
  parts : ws ≡ before ++ first ∷ after
  earlier : All (IsForOther first.lock) before
  highest : All (λ w. rank w.lock ≤ rank first.lock) ws

All-le_trans :
    (m n : ℕ) (ws : List Waiter)
    → m ≤ n
    → All (λ w. rank w.lock ≤ m) ws
    → All (λ w. rank w.lock ≤ n) ws
All-le_trans m n [] le h = tt
All-le_trans m n (w ∷ ws) le h = (omega arith, All-le_trans m n ws le h.1)

top : (w : Waiter) (ws : List Waiter) → Top (w ∷ ws)
top w [] = record {
  before = [];
  first = w;
  after = [];
  parts = refl;
  earlier = tt;
  highest = (omega arith, tt);
}
top w (v ∷ ws) = choose (top v ws)
  where
    choose : Top (v ∷ ws) → Top (w ∷ v ∷ ws)
    choose t = elim (Bool-cases (leb (rank t.first.lock) (rank w.lock))) [
      | inl e ↦ record {
        before = [];
        first = w;
        after = v ∷ ws;
        parts = refl;
        earlier = tt;
        highest = (
          omega arith,
          All-le_trans (rank t.first.lock) (rank w.lock) (v ∷ ws) (leb→le _ _ e) t.highest,
        );
      }
      | inr e ↦ record {
        before = w ∷ t.before;
        first = t.first;
        after = t.after;
        parts = ap (◌∷◌ w) t.parts;
        earlier = (lower_other w.lock t.first.lock (ground arith), t.earlier);
        highest = (ground arith, t.highest);
      }
    ]

free_of_none :
    (a : Access) (l : Lock) (s : System)
    → ((b : Access) → running_hold b l s.running ≡ 0)
    → ((b : Access) → waiting_hold b l s.waiting ≡ 0)
    → is_free a l s ≡ true
free_of_none shared l s p q = ground (arith, p exclusive, q exclusive)
free_of_none exclusive l s p q = ground (arith, p exclusive, q exclusive, p shared, q shared)

-- Where all that run are at their end, the first that waits for a highest lock is given it.
waiting_steps :
    (s : System) (ws : List Waiter)
    → AreOrdered s
    → All IsAtEnd s.running
    → s.waiting ≡ ws
    → AreFinished s ⊎ CanStep s
waiting_steps s [] o d e = inl (record { running = d; waiting = e })
waiting_steps s (w ∷ ws) o d e = inr (grant (top w ws))
  where
    grant : Top (w ∷ ws) → CanStep s
    grant t =
        let l = t.first.lock in
        let o' : All IsOrderedWaiter (w ∷ ws) = subst (All IsOrderedWaiter) e o.waiting in
        let free : is_free t.first.access l s ≡ true =
          free_of_none t.first.access l s (λ b. end_hold b l s.running d)
            (λ b. ap (waiting_hold b l) e ∙ highest_hold b l (w ∷ ws) o' t.highest) in
        (
          _,
          granted t.before t.after t.first.held t.first.access l t.first.rest (e ∙ t.parts)
              t.earlier free refl,
        )

pub progress : (s : System) → AreOrdered s → AreFinished s ⊎ CanStep s
progress s o = elim (running_steps s [] s.running o.running refl) [
  | inr st ↦ inr st
  | inl d ↦ waiting_steps s s.waiting o d refl
]
