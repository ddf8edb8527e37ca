-- ===== src/Camera/Bucket.antt =====
-- The retransmission bucket of CameraConnection in src/types.rs, which collects packet ids.
use a9_v.Prelude.{
  ℕ, ◌≡◌, refl, ◌∙◌, List, [], ◌∷◌, ◌++◌, elem, IsDistinct, false, ◌||◌, ◌==◌, arith, Bool-cases,
  inl, inr,
}
use a9_v.Camera.{
  CameraConnection, push_new, add_to_retransmission_bucket, get_and_clear_retransmission_bucket,
}

-- The packets of a stream, one after another.
pub collect : List ℕ → CameraConnection → CameraConnection
unfolding add_to_retransmission_bucket
collect [] c = c
collect (i ∷ is) c = collect is (add_to_retransmission_bucket i c)

elem-snoc : (a i : ℕ) (l : List ℕ) → elem a (l ++ i ∷ []) ≡ (elem a l || a == i)
elem-snoc a i [] = ground arith
elem-snoc a i (x ∷ l) = ground (arith, elem-snoc a i l)

IsDistinct-snoc : (i : ℕ) (l : List ℕ) → IsDistinct l → elem i l ≡ false → IsDistinct (l ++ i ∷ [])
IsDistinct-snoc i [] d h = (refl, tt)
IsDistinct-snoc i (x ∷ l) d h =
    (ground (arith, elem-snoc x i l), IsDistinct-snoc i l d.1 (ground arith))

pub push_new-IsDistinct : (i : ℕ) (l : List ℕ) → IsDistinct l → IsDistinct (push_new i l)
push_new-IsDistinct i l d = elim (Bool-cases (elem i l)) [
  | inl old ↦ rw old d
  | inr fresh ↦ rw fresh (IsDistinct-snoc i l d fresh)
]

elem-push_new : (a i : ℕ) (l : List ℕ) → elem a (push_new i l) ≡ (elem a l || a == i)
elem-push_new a i l = ground (arith, elem-snoc a i l)

elem-collect :
    (a : ℕ) (is : List ℕ) (c : CameraConnection)
    → elem a (collect is c).retransmission_bucket ≡ (elem a c.retransmission_bucket || elem a is)
unfolding collect
elem-collect a [] c = ground arith
elem-collect a (i ∷ is) c =
    elem-collect a is (add_to_retransmission_bucket i c)
    ∙ ground (arith, elem-push_new a i c.retransmission_bucket)

collect-IsDistinct :
    (is : List ℕ) (c : CameraConnection)
    → IsDistinct c.retransmission_bucket
    → IsDistinct (collect is c).retransmission_bucket
unfolding collect
collect-IsDistinct [] c d = d
collect-IsDistinct (i ∷ is) c d =
    collect-IsDistinct is (add_to_retransmission_bucket i c)
      (push_new-IsDistinct i c.retransmission_bucket d)

-- From an empty bucket, what is taken out after any packets is the ids of those packets, each of
-- them once, and the bucket is empty again.
pub collect-get_and_clear :
    (is : List ℕ) (c : CameraConnection)
    → c.retransmission_bucket ≡ []
    → let (taken, c') = get_and_clear_retransmission_bucket (collect is c) in
      ((a : ℕ) → elem a taken ≡ elem a is) × IsDistinct taken × (c'.retransmission_bucket ≡ [])
unfolding get_and_clear_retransmission_bucket
collect-get_and_clear is c e =
    (λ a. elem-collect a is c ∙ rw e, collect-IsDistinct is c (rw e tt), refl)
