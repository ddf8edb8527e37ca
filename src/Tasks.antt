-- ===== src/Tasks.antt =====
-- The tasks of the server, interleaved wherever they wait for a lock. A handler is reduced to what it
-- does with the locks: the RwLock of the manager, that of a camera, and the Mutex of a connection's
-- writing half. tokio serves the waiters of a lock in the order in which they came, and a `try_`
-- method gives up where it cannot have the lock at once.
pub mod Counts
pub mod Queue
pub mod Exclusion
pub mod Order
pub mod Handlers
use a9_v.Prelude.{
  ℕ, ◌+◌, ◌≡◌, List, [], ◌∷◌, ◌++◌, All, map, Bool, true, false, not, ◌&&◌, ◌==◌, if◌then◌else◌,
}

pub data Lock : Type 0 where
  manager : Lock
  camera : ℕ → Lock
  connection : ℕ → Lock

pub data Access : Type 0 where
  shared exclusive : Access

-- The locks that a handler takes and drops. A guard is dropped before those that are older. A branch
-- on anything but a lock is left open.
pub data Code : Type 0 where
  finish : Code
  take : Access → Lock → Code → Code
  drop : Code → Code
  either : Code → Code → Code
  try_take : Access → Lock → Code → Code → Code

abbrev pub same_lock : Lock → Lock → Bool
same_lock manager manager = true
same_lock manager (camera j) = false
same_lock manager (connection j) = false
same_lock (camera i) manager = false
same_lock (camera i) (camera j) = i == j
same_lock (camera i) (connection j) = false
same_lock (connection i) manager = false
same_lock (connection i) (camera j) = false
same_lock (connection i) (connection j) = i == j

abbrev pub same_access : Access → Access → Bool
same_access shared shared = true
same_access shared exclusive = false
same_access exclusive shared = false
same_access exclusive exclusive = true

-- The guards of a task, the youngest first.
abbrev pub Guards : Type 0
Guards = List (Lock × Access)

pub record Task : Type 0 where
  pub held : Guards
  pub code : Code

-- A task that waits for a lock, and goes on with `rest`.
pub record Waiter : Type 0 where
  pub held : Guards
  pub access : Access
  pub lock : Lock
  pub rest : Code

-- The waiters in the order in which they came.
pub record System : Type 0 where
  pub running : List Task
  pub waiting : List Waiter

abbrev pub task : Guards → Code → Task
task h c = record { held = h; code = c }

abbrev pub waiter : Guards → Access → Lock → Code → Waiter
waiter h a l c = record { held = h; access = a; lock = l; rest = c }

abbrev pub system : List Task → List Waiter → System
system r w = record { running = r; waiting = w }

-- The guards of a lock, of one kind.
unfoldable pub held_for : Access → Lock → Guards → ℕ
held_for a l [] = 0
held_for a l ((k, b) ∷ h) = (if same_lock k l && same_access b a then 1 else 0) + held_for a l h

unfoldable pub running_hold : Access → Lock → List Task → ℕ
unfolding held_for
running_hold a l [] = 0
running_hold a l (t ∷ ts) = held_for a l t.held + running_hold a l ts

unfoldable pub waiting_hold : Access → Lock → List Waiter → ℕ
unfolding held_for
waiting_hold a l [] = 0
waiting_hold a l (w ∷ ws) = held_for a l w.held + waiting_hold a l ws

abbrev pub guards_of : Access → Lock → System → ℕ
guards_of a l s = running_hold a l s.running + waiting_hold a l s.waiting

-- Readers share a lock, a writer has it alone.
abbrev pub is_free : Access → Lock → System → Bool
is_free shared l s = guards_of exclusive l s == 0
is_free exclusive l s = guards_of shared l s + guards_of exclusive l s == 0

-- Nobody waits for the lock.
abbrev pub unwanted : Lock → List Waiter → Bool
unwanted l [] = true
unwanted l (w ∷ ws) = not (same_lock w.lock l) && unwanted l ws

-- Whether a `try_` method gets the lock.
abbrev pub is_open : Access → Lock → System → Bool
is_open a l s = is_free a l s && unwanted l s.waiting

-- What a task that runs does by itself.
pub data Act (s : System) : Guards → Code → Guards → Code → Type 0 where
  drops : (g : Lock × Access) (h : Guards) (c : Code) → Act s (g ∷ h) (drop c) h c
  goes_left : (h : Guards) (c d : Code) → Act s h (either c d) h c
  goes_right : (h : Guards) (c d : Code) → Act s h (either c d) h d
  gets :
      (h : Guards) (a : Access) (l : Lock) (c d : Code)
      → is_open a l s ≡ true
      → Act s h (try_take a l c d) ((l, a) ∷ h) c
  gives_up :
      (h : Guards) (a : Access) (l : Lock) (c d : Code)
      → is_open a l s ≡ false
      → Act s h (try_take a l c d) h d

abbrev pub IsForOther : Lock → Waiter → Type 0
IsForOther l w = same_lock w.lock l ≡ false

-- A task does something by itself, comes to wait for a lock, or is given the lock that it has waited
-- for: where the lock is free, and nobody has waited for it longer.
pub data Step (s t : System) : Type 0 where
  acts :
      (xs ys : List Task) (h : Guards) (c : Code) (h' : Guards) (c' : Code)
      → Act s h c h' c'
      → s.running ≡ xs ++ task h c ∷ ys
      → t ≡ system (xs ++ task h' c' ∷ ys) s.waiting
      → Step s t
  waits :
      (xs ys : List Task) (h : Guards) (a : Access) (l : Lock) (c : Code)
      → s.running ≡ xs ++ task h (take a l c) ∷ ys
      → t ≡ system (xs ++ ys) (s.waiting ++ waiter h a l c ∷ [])
      → Step s t
  granted :
      (ws vs : List Waiter) (h : Guards) (a : Access) (l : Lock) (c : Code)
      → s.waiting ≡ ws ++ waiter h a l c ∷ vs
      → All (IsForOther l) ws
      → is_free a l s ≡ true
      → t ≡ system (task ((l, a) ∷ h) c ∷ s.running) (ws ++ vs)
      → Step s t

-- A run of so many steps.
pub data Run (s : System) : ℕ → System → Type 0 where
  stays : Run s 0 s
  steps : {n : ℕ} {t u : System} → Run s n t → Step t u → Run s (n + 1) u

-- All handlers are started at once.
abbrev pub start : List Code → System
start cs = system (map (task []) cs) []
