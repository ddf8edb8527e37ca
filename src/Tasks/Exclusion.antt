-- ===== src/Tasks/Exclusion.antt =====
-- Who holds a lock together in the interleaved tasks.
use a9_v.Prelude.{
  ℕ, ◌+◌, ◌≤◌, ◌≡◌, refl, sym, ap, subst, ◌∙◌, List, [], ◌∷◌, ◌++◌, Bool, true, arith, ◌&&◌, ◌⊎◌,
  inl, inr, Bool-cases, if◌then◌else◌,
}
use a9_v.Tasks.{
  Lock, manager, camera, connection, Access, shared, exclusive, Code, take, same_lock, same_access,
  Guards, Task, Waiter, System, task, waiter, system, held_for, running_hold, waiting_hold,
  guards_of, is_free, Act, drops, goes_left, goes_right, gets, gives_up, Step, acts, waits, granted,
  Run, stays, steps, start,
}
use a9_v.Tasks.Counts.{running_hold-append, waiting_hold-append, running_hold-start}

pub same_lock→eq : (k l : Lock) → same_lock k l ≡ true → k ≡ l
same_lock→eq manager manager e = refl
same_lock→eq manager (camera j) e = cc
same_lock→eq manager (connection j) e = cc
same_lock→eq (camera i) manager e = cc
same_lock→eq (camera i) (camera j) e = ap camera (ground arith)
same_lock→eq (camera i) (connection j) e = cc
same_lock→eq (connection i) manager e = cc
same_lock→eq (connection i) (camera j) e = cc
same_lock→eq (connection i) (connection j) e = ap connection (ground arith)

-- So many readers and writers may hold a lock together.
abbrev pub IsExclusive : ℕ → ℕ → Type 0
IsExclusive readers writers = (writers ≤ 1) × ((writers ≡ 0) ⊎ (readers ≡ 0))

abbrev pub IsShared : System → Lock → Type 0
IsShared s l = IsExclusive (guards_of shared l s) (guards_of exclusive l s)

less-IsExclusive : (r w r' w' : ℕ) → IsExclusive r w → r' ≤ r → w' ≤ w → IsExclusive r' w'
less-IsExclusive r w r' w' h p q = ground arith

abbrev one_if : Bool → ℕ
one_if b = if b then 1 else 0

-- A guard more, where the lock was free for it.
more-IsExclusive :
    (a : Access) (l k : Lock) (s : System) (r w : ℕ)
    → IsShared s k
    → is_free a l s ≡ true
    → r ≡ guards_of shared k s + one_if (same_lock l k && same_access a shared)
    → w ≡ guards_of exclusive k s + one_if (same_lock l k && same_access a exclusive)
    → IsExclusive r w
more-IsExclusive a l k s r w h f p q = elim (Bool-cases (same_lock l k)) [
  | inl e ↦
      here a (subst (λ k'. is_free a k' s ≡ true) (same_lock→eq l k e) f) (p ∙ rw e) (q ∙ rw e)
  | inr e ↦
      less-IsExclusive (guards_of shared k s) (guards_of exclusive k s) r w h (ground arith)
        (ground arith)
]
  where
    here :
        (a : Access)
        → is_free a k s ≡ true
        → r ≡ guards_of shared k s + one_if (same_access a shared)
        → w ≡ guards_of exclusive k s + one_if (same_access a exclusive)
        → IsExclusive r w
    here shared f p q = ground arith
    here exclusive f p q = ground arith

module _ (s : System) (k : Lock) (h : IsShared s k) where
  -- Of all guards but those of one task there are so many.
  abbrev others : Access → List Task → List Task → List Waiter → ℕ
  others b xs ys ws = running_hold b k xs + running_hold b k ys + waiting_hold b k ws

  guards_of-running :
      (b : Access) (xs ys : List Task) (ws : List Waiter) (g : Guards) (c : Code)
      → guards_of b k (system (xs ++ task g c ∷ ys) ws) ≡ others b xs ys ws + held_for b k g
  unfolding running_hold
  guards_of-running b xs ys ws g c = omega (arith, running_hold-append b k xs (task g c ∷ ys))

  Act-IsShared :
      (xs ys : List Task) (g : Guards) (c : Code) (g' : Guards) (c' : Code)
      → Act s g c g' c'
      → s.running ≡ xs ++ task g c ∷ ys
      → IsShared (system (xs ++ task g' c' ∷ ys) s.waiting) k
  unfolding held_for
  Act-IsShared xs ys g c g' c' act e = by_act act (before shared) (before exclusive)
    where
      before : (b : Access) → guards_of b k s ≡ others b xs ys s.waiting + held_for b k g
      before b =
          ap (λ r. running_hold b k r + waiting_hold b k s.waiting) e
          ∙ guards_of-running b xs ys s.waiting g c

      after :
          (b : Access) (g' : Guards) (c' : Code)
          → guards_of b k (system (xs ++ task g' c' ∷ ys) s.waiting)
            ≡ others b xs ys s.waiting + held_for b k g'
      after b g' c' = guards_of-running b xs ys s.waiting g' c'

      fewer :
          (g g' : Guards) (c' : Code)
          → held_for shared k g' ≤ held_for shared k g
          → held_for exclusive k g' ≤ held_for exclusive k g
          → guards_of shared k s ≡ others shared xs ys s.waiting + held_for shared k g
          → guards_of exclusive k s ≡ others exclusive xs ys s.waiting + held_for exclusive k g
          → IsShared (system (xs ++ task g' c' ∷ ys) s.waiting) k
      fewer g g' c' p q u v =
          less-IsExclusive (guards_of shared k s) (guards_of exclusive k s) _ _ h
            (omega (arith, after shared g' c')) (omega (arith, after exclusive g' c'))

      by_act :
          {g : Guards} {c : Code} {g' : Guards} {c' : Code}
          → Act s g c g' c'
          → guards_of shared k s ≡ others shared xs ys s.waiting + held_for shared k g
          → guards_of exclusive k s ≡ others exclusive xs ys s.waiting + held_for exclusive k g
          → IsShared (system (xs ++ task g' c' ∷ ys) s.waiting) k
      by_act (drops x g c) u v = fewer (x ∷ g) g c (omega arith) (omega arith) u v
      by_act (goes_left g c d) u v = fewer g g c (omega arith) (omega arith) u v
      by_act (goes_right g c d) u v = fewer g g d (omega arith) (omega arith) u v
      by_act (gives_up g a l c d o) u v = fewer g g d (omega arith) (omega arith) u v
      by_act (gets g a l c d o) u v =
          more-IsExclusive a l k s _ _ h (ground arith) (after shared ((l, a) ∷ g) c ∙ omega arith)
            (after exclusive ((l, a) ∷ g) c ∙ omega arith)

  wait-IsShared :
      (xs ys : List Task) (g : Guards) (a : Access) (l : Lock) (c : Code)
      → s.running ≡ xs ++ task g (take a l c) ∷ ys
      → IsShared (system (xs ++ ys) (s.waiting ++ waiter g a l c ∷ [])) k
  unfolding waiting_hold
  wait-IsShared xs ys g a l c e =
      less-IsExclusive (guards_of shared k s) (guards_of exclusive k s) _ _ h
        (omega (arith, same_count shared)) (omega (arith, same_count exclusive))
    where
      same_count :
          (b : Access)
          → guards_of b k (system (xs ++ ys) (s.waiting ++ waiter g a l c ∷ [])) ≡ guards_of b k s
      same_count b = omega (
        arith,
        running_hold-append b k xs ys,
        waiting_hold-append b k s.waiting (waiter g a l c ∷ []),
        guards_of-running b xs ys s.waiting g (take a l c),
        ap (running_hold b k) e,
      )

  grant-IsShared :
      (ws vs : List Waiter) (g : Guards) (a : Access) (l : Lock) (c : Code)
      → s.waiting ≡ ws ++ waiter g a l c ∷ vs
      → is_free a l s ≡ true
      → IsShared (system (task ((l, a) ∷ g) c ∷ s.running) (ws ++ vs)) k
  unfolding waiting_hold running_hold held_for
  grant-IsShared ws vs g a l c e f =
      more-IsExclusive a l k s _ _ h f (count shared) (count exclusive)
    where
      count :
          (b : Access)
          → guards_of b k (system (task ((l, a) ∷ g) c ∷ s.running) (ws ++ vs))
            ≡ guards_of b k s + one_if (same_lock l k && same_access a b)
      count b = omega (
        arith,
        waiting_hold-append b k ws vs,
        waiting_hold-append b k ws (waiter g a l c ∷ vs),
        ap (waiting_hold b k) e,
      )

Step-IsShared : {s t : System} (k : Lock) → IsShared s k → Step s t → IsShared t k
Step-IsShared {s} k h (acts xs ys g c g' c' act e q) =
    subst (λ t. IsShared t k) (sym q) (Act-IsShared s k h xs ys g c g' c' act e)
Step-IsShared {s} k h (waits xs ys g a l c e q) =
    subst (λ t. IsShared t k) (sym q) (wait-IsShared s k h xs ys g a l c e)
Step-IsShared {s} k h (granted ws vs g a l c e _ f q) =
    subst (λ t. IsShared t k) (sym q) (grant-IsShared s k h ws vs g a l c e f)

-- However the tasks are interleaved, whatever they do with the locks: no lock is held by two writers,
-- or by a reader and a writer.
pub Run-IsShared :
    (cs : List Code) (l : Lock) {n : ℕ} {t : System} → Run (start cs) n t → IsShared t l
unfolding waiting_hold
Run-IsShared cs l stays =
    ground (arith, running_hold-start shared l cs, running_hold-start exclusive l cs)
Run-IsShared cs l (steps r st) = Step-IsShared l (Run-IsShared cs l r) st
