-- ===== src/Stream/Bounds.antt =====
-- The bound on the frames of the buffer of src/types.rs, and the calls that change it.
use a9_v.Prelude.{
  ℕ, ◌+◌, ◌-◌, ◌<◌, ◌≤◌, ◌≡◌, refl, sym, ap, ◌∙◌, List, [], ◌∷◌, ◌++◌, length, drop, Bool, ◌&&◌,
  none, ltb, leb, ◌==◌, arith, length-append, Bool-cases, Option-cases, inl, inr, length-drop,
  if_rule, leb→le, suc, zero,
}
use a9_v.Wire.{Bytes}
use a9_v.Stream.{
  StreamBuffer, FrameFragment, pop_front, add_complete_frame, store_assembled, add_fragment,
  complete_frame, add_frame_fragment, complete_incomplete_frame, clear, assemble_frame,
  read_expected,
}

-- The calls that change a buffer.
pub data Op : Type 0 where
  packet : ℕ → ℕ → ℕ → Bytes → Op
  sweep : Op
  store : Bytes → Op
  reset : Op

unfoldable pub step : Op → StreamBuffer → StreamBuffer
unfolding add_fragment complete_incomplete_frame add_complete_frame clear
step (packet cmd flag pkg p) b = (add_fragment cmd flag pkg p b).0
step sweep b = (complete_incomplete_frame b).0
step (store f) b = add_complete_frame f b
step reset b = clear b

unfoldable pub run : List Op → StreamBuffer → StreamBuffer
unfolding step
run [] b = b
run (o ∷ os) b = run os (step o b)

pub record IsBounded (m : ℕ) (b : StreamBuffer) : Type 0 where
  pub limit : b.max_frames ≡ m
  pub positive : 0 < m
  pub within : length b.frames ≤ m

abbrev BoundedResult : ℕ → StreamBuffer × Bool → Type 0
BoundedResult m r = IsBounded m r.0

length-pop_front : (l : List Bytes) → length (pop_front l) ≡ length l - 1
length-pop_front [] = omega arith
length-pop_front (f ∷ fs) = omega arith

pub add_complete_frame-IsBounded :
    {m : ℕ} (f : Bytes) (b : StreamBuffer) → IsBounded m b → IsBounded m (add_complete_frame f b)
unfolding add_complete_frame
add_complete_frame-IsBounded f b v = record {
  limit = v.limit;
  positive = v.positive;
  within = ground (
    arith,
    length-append (pop_front b.frames) (f ∷ []),
    length-append b.frames (f ∷ []),
    length-pop_front b.frames,
  );
}

store_assembled-IsBounded :
    {m : ℕ} (g : FrameFragment) (b : StreamBuffer)
    → IsBounded m b
    → IsBounded m (store_assembled g b).0
unfolding store_assembled
store_assembled-IsBounded g b v = elim (Option-cases (assemble_frame g)) [
  | inl e ↦ rw (e, store_assembled) v
  | inr (f, e) ↦ rw (e, store_assembled) (add_complete_frame-IsBounded f b v)
]

complete_frame-IsBounded :
    {m : ℕ} (pkg : ℕ) (p : Bytes) (b : StreamBuffer)
    → IsBounded m b
    → IsBounded m (complete_frame pkg p b).0
unfolding complete_frame
complete_frame-IsBounded pkg p b v = elim (Option-cases b.current_frame) [
  | inl e ↦ rw (e, complete_frame) v
  | inr (g, e) ↦
      rw (e, complete_frame)
        (store_assembled-IsBounded (read_expected (record g { fragments = g.fragments ++ p ∷ [] }))
          (record b { current_frame = none })
          (record { limit = v.limit; positive = v.positive; within = v.within }))
]

pub sweep-IsBounded :
    {m : ℕ} (b : StreamBuffer) → IsBounded m b → IsBounded m (complete_incomplete_frame b).0
unfolding complete_incomplete_frame
sweep-IsBounded b v = elim (Option-cases b.current_frame) [
  | inl e ↦ rw (e, complete_incomplete_frame) v
  | inr (g, e) ↦
      let emptied : IsBounded _ (record b { current_frame = none }) = record {
        limit = v.limit;
        positive = v.positive;
        within = v.within;
      } in
      rw (e, complete_incomplete_frame)
        (if_rule (BoundedResult _) (ltb 1 (length g.fragments))
          (store_assembled-IsBounded g (record b { current_frame = none }) emptied) emptied)
]

pub add_fragment-IsBounded :
    {m : ℕ} (cmd flag pkg : ℕ) (p : Bytes) (b : StreamBuffer)
    → IsBounded m b
    → IsBounded m (add_fragment cmd flag pkg p b).0
unfolding add_fragment
add_fragment-IsBounded {m} cmd flag pkg p b v =
    if_rule (BoundedResult _) (cmd == 6 && flag == 255) v (
      if_rule (BoundedResult _) (cmd == 6) v (
        if_rule (BoundedResult _) (cmd == 1 && flag == 250)
          (record { limit = v.limit; positive = v.positive; within = v.within })
          (if_rule (BoundedResult _) (cmd == 1 && flag == 251) extended (
            if_rule (BoundedResult _) (cmd == 1 && flag == 252) (complete_frame-IsBounded pkg p b v)
              v))))
  where
    extended : IsBounded m (add_frame_fragment pkg p b)
    extended = elim (Option-cases b.current_frame) [
      | inl e ↦ rw (e, add_frame_fragment) v
      | inr (g, e) ↦
          rw (e, add_frame_fragment)
            (record { limit = v.limit; positive = v.positive; within = v.within })
    ]

pub step-IsBounded : {m : ℕ} (o : Op) (b : StreamBuffer) → IsBounded m b → IsBounded m (step o b)
unfolding step
step-IsBounded (packet cmd flag pkg p) b v = add_fragment-IsBounded cmd flag pkg p b v
step-IsBounded sweep b v = sweep-IsBounded b v
step-IsBounded (store f) b v = add_complete_frame-IsBounded f b v
step-IsBounded reset b v = record { limit = v.limit; positive = v.positive; within = omega arith }

-- No sequence of calls changes `max_frames` or makes a buffer hold more than `max_frames` frames,
-- where that is not zero and it does not hold more at first.
pub run-IsBounded :
    {m : ℕ} (os : List Op) (b : StreamBuffer) → IsBounded m b → IsBounded m (run os b)
unfolding run
run-IsBounded [] b v = v
run-IsBounded (o ∷ os) b v = run-IsBounded os (step o b) (step-IsBounded o b v)

-- The last `m` elements.
abbrev pub last_n : ℕ → List Bytes → List Bytes
last_n m h = drop (length h - m) h

drop-append : (n : ℕ) (h s : List Bytes) → n ≤ length h → drop n (h ++ s) ≡ drop n h ++ s
drop-append zero h s e = refl
drop-append (suc n) [] s e = elim e [ ]
drop-append (suc n) (x ∷ h) s e = drop-append n h s (omega arith)

pop_front-drop : (n : ℕ) (h : List Bytes) → pop_front (drop n h) ≡ drop (suc n) h
pop_front-drop zero [] = refl
pop_front-drop zero (x ∷ h) = refl
pop_front-drop (suc n) [] = refl
pop_front-drop (suc n) (x ∷ h) = pop_front-drop n h

-- A buffer that shows the last `max_frames` of the frames in a history, not zero of them, shows
-- those of the longer history after a frame is added.
pub add_complete_frame-last_n :
    (f : Bytes) (h : List Bytes) (b : StreamBuffer)
    → 0 < b.max_frames
    → b.frames ≡ last_n b.max_frames h
    → (add_complete_frame f b).frames ≡ last_n b.max_frames (h ++ f ∷ [])
unfolding add_complete_frame
add_complete_frame-last_n f h b p e =
    let m = b.max_frames in
    let n = length h - m in
    let sized : length b.frames ≡ length h - n = ap length e ∙ length-drop n h in
    let grown : length (h ++ f ∷ []) ≡ length h + 1 = length-append h (f ∷ []) in
    elim (Bool-cases (leb m (length b.frames))) [
      | inl full ↦
          let fits : m ≤ length b.frames = leb→le _ _ full in
          let next : suc n ≡ length (h ++ f ∷ []) - m = omega arith in
          rw full (
            ap (λ t. pop_front t ++ f ∷ []) e
            ∙ ap (λ t. t ++ f ∷ []) (pop_front-drop n h)
            ∙ sym (drop-append (suc n) h (f ∷ []) (omega arith))
            ∙ ap (λ k. drop k (h ++ f ∷ [])) next)
      | inr room ↦
          let short : length b.frames < m = ground arith in
          let none_lost : n ≡ length (h ++ f ∷ []) - m = omega arith in
          rw room (
            ap (λ t. t ++ f ∷ []) e
            ∙ sym (drop-append n h (f ∷ []) (omega arith))
            ∙ ap (λ k. drop k (h ++ f ∷ [])) none_lost)
    ]
