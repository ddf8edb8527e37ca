-- ===== src/Pool/Connections/Keys.antt =====
-- The ids of the connections of src/camera.rs, and what is found under them.
use a9_v.Prelude.{
  ◌≡◌, ◌≢◌, refl, sym, ap, subst, ◌∙◌, [], ◌∷◌, Bool, true, false, All, Option, none, some,
  if◌then◌else◌, ◌⊎◌, inl, inr, Bool-cases, if_rule,
}
use a9_v.Wire.{Bytes}
use a9_v.Camera.{CameraConnection, bytes_eq}
use a9_v.Camera.Ids.{bytes_eq_refl, bytes_eq_injective, bytes_eq-ne}
use a9_v.Pool.Health.{Connections, remove, IsKeyed}
use a9_v.Pool.Connections.{insert_connection, camera_of}

same_or_other :
    (s t : Bytes) → ((s ≡ t) × (bytes_eq s t ≡ true)) ⊎ ((s ≢ t) × (bytes_eq s t ≡ false))
same_or_other s t = elim (Bool-cases (bytes_eq s t)) [
  | inl e ↦ inl (bytes_eq_injective s t e, e)
  | inr e ↦ inr (λ p. differ (sym e ∙ ap (bytes_eq s) (sym p) ∙ bytes_eq_refl s), e)
]
  where
    differ : false ≡ true → Prim.⊥
    differ h = cc

-- Tests for two ids that differ may be done in either order.
swap :
    (i j k : Bytes) (x y o : Option CameraConnection)
    → i ≢ j
    → (if bytes_eq i k then x else (if bytes_eq j k then y else o))
      ≡ (if bytes_eq j k then y else (if bytes_eq i k then x else o))
swap i j k x y o n = elim (same_or_other j k) [
  | inl (p, e) ↦ rw (e, bytes_eq-ne i k (λ q. n (q ∙ sym p)))
  | inr (_, e) ↦ rw e
]

over :
    (b : Bool) (x y o : Option CameraConnection)
    → (if b then x else o) ≡ (if b then x else (if b then y else o))
over true x y o = refl
over false x y o = refl

camera_of-insert_connection :
    (k j : Bytes) (c : CameraConnection) (m : Connections)
    → camera_of k (insert_connection j c m) ≡ (if bytes_eq j k then some c else camera_of k m)
unfolding camera_of insert_connection
camera_of-insert_connection k j c [] = refl
camera_of-insert_connection k j c ((i, d) ∷ m) = elim (same_or_other i j) [
  | inl (p, e) ↦ rw (e, p) (over (bytes_eq j k) (some c) (some d) (camera_of k m))
  | inr (n, e) ↦
      rw (e, camera_of-insert_connection k j c m) (swap i j k (some d) (some c) (camera_of k m) n)
]

abbrev pub IsAbsent : Bytes → Connections → Type 0
IsAbsent k m = All (λ (e : Bytes × CameraConnection). k ≢ e.0) m

camera_of-IsAbsent : (k : Bytes) (m : Connections) → IsAbsent k m → camera_of k m ≡ none
unfolding camera_of
camera_of-IsAbsent k [] h = refl
camera_of-IsAbsent k ((i, d) ∷ m) h =
    rw (bytes_eq-ne i k (λ p. h.0 (sym p))) (camera_of-IsAbsent k m h.1)

camera_of-remove :
    (k j : Bytes) (m : Connections)
    → IsKeyed m
    → camera_of k (remove j m) ≡ (if bytes_eq j k then none else camera_of k m)
unfolding camera_of remove
camera_of-remove k j [] h =
    if_rule (λ (o : Option CameraConnection). none ≡ o) (bytes_eq j k) refl refl
camera_of-remove k j ((i, d) ∷ m) h = elim (same_or_other i j) [
  | inl (p, e) ↦ rw e (elim (same_or_other j k) [
    | inl (q, f) ↦ rw f (camera_of-IsAbsent k m (subst (λ x. IsAbsent x m) (p ∙ q) h.0))
    | inr (_, f) ↦ rw (f, p, f)
  ])
  | inr (n, e) ↦ rw (e, camera_of-remove k j m h.1) (swap i j k (some d) none (camera_of k m) n)
]

insert_connection-IsAbsent :
    (k j : Bytes) (c : CameraConnection) (m : Connections)
    → k ≢ j
    → IsAbsent k m
    → IsAbsent k (insert_connection j c m)
unfolding insert_connection
insert_connection-IsAbsent k j c [] n h = (n, tt)
insert_connection-IsAbsent k j c ((i, d) ∷ m) n h =
    if_rule (IsAbsent k) (bytes_eq i j) (n, h.1) (h.0, insert_connection-IsAbsent k j c m n h.1)

pub insert_connection-IsKeyed :
    (j : Bytes) (c : CameraConnection) (m : Connections)
    → IsKeyed m
    → IsKeyed (insert_connection j c m)
unfolding insert_connection
insert_connection-IsKeyed j c [] h = (tt, tt)
insert_connection-IsKeyed j c ((i, d) ∷ m) h = elim (same_or_other i j) [
  | inl (p, e) ↦ rw e (subst (λ x. IsAbsent x m) p h.0, h.1)
  | inr (n, e) ↦
      rw e (insert_connection-IsAbsent i j c m n h.0, insert_connection-IsKeyed j c m h.1)
]

remove-IsAbsent : (k j : Bytes) (m : Connections) → IsAbsent k m → IsAbsent k (remove j m)
unfolding remove
remove-IsAbsent k j [] h = tt
remove-IsAbsent k j ((i, d) ∷ m) h =
    if_rule (IsAbsent k) (bytes_eq i j) h.1 (h.0, remove-IsAbsent k j m h.1)

pub remove-IsKeyed : (j : Bytes) (m : Connections) → IsKeyed m → IsKeyed (remove j m)
unfolding remove
remove-IsKeyed j [] h = tt
remove-IsKeyed j ((i, d) ∷ m) h =
    if_rule IsKeyed (bytes_eq i j) h.1 (remove-IsAbsent i j m h.0, remove-IsKeyed j m h.1)

-- Two connections are stored under one id, and it is removed.
pub stored_twice :
    (j k : Bytes) (c c' : CameraConnection) (m : Connections)
    → IsKeyed m
    → k ≢ j
    → let left = remove j (insert_connection j c' (insert_connection j c m)) in
      (camera_of j left ≡ none) × (camera_of k left ≡ camera_of k m)
stored_twice j k c c' m h n =
    let keyed =
      insert_connection-IsKeyed j c' (insert_connection j c m)
        (insert_connection-IsKeyed j c m h) in
    let other = bytes_eq-ne j k (λ p. n (sym p)) in
    (
      camera_of-remove j j (insert_connection j c' (insert_connection j c m)) keyed
          ∙ rw (bytes_eq_refl j),
      camera_of-remove k j (insert_connection j c' (insert_connection j c m)) keyed
          ∙ rw (
            other,
            camera_of-insert_connection k j c' (insert_connection j c m),
            other,
            camera_of-insert_connection k j c m,
            other,
          ),
    )
