-- ===== src/Stream/Assembly.antt =====
-- What `assemble_frame` of src/types.rs puts together: its two loops against a plain recursion.
use a9_v.Prelude.{
  ℕ, ◌+◌, ◌-◌, ◌≡◌, ◌≢◌, refl, sym, ap, ◌∙◌, List, [], ◌∷◌, ◌++◌, length, take, Bool, true, false,
  ◌&&◌, none, some, ltb, leb, ◌==◌, if◌then◌else◌, arith, append_assoc, length-append,
  length-take_le, Bool-cases, inl, inr, some-injective,
}
use a9_v.Wire.{Bytes}
use a9_v.Stream.{
  FrameFragment, trailing_size, measure_last, measure_fragments, collect_fragments, assemble_frame,
}

-- A last fragment whose trailing four bytes count as the size of the frame.
abbrev pub has_size : Bytes → Bool
has_size f = leb 4 (length f) && (ltb 0 (trailing_size f) && ltb (trailing_size f) 1000000)

abbrev pub strip : Bytes → Bytes
strip f = if has_size f then take (length f - 4) f else f

-- The fragments one after another, the last without its size.
abbrev pub assembled : List Bytes → Bytes
assembled [] = []
assembled (f ∷ []) = strip f
assembled (f ∷ g ∷ fs) = f ++ assembled (g ∷ fs)

abbrev last_has_size : List Bytes → Bool
last_has_size [] = false
last_has_size (f ∷ []) = has_size f
last_has_size (f ∷ g ∷ fs) = last_has_size (g ∷ fs)

length-strip : (f : Bytes) → length (strip f) ≡ (if has_size f then length f - 4 else length f)
length-strip f = elim (Bool-cases (has_size f)) [
  | inl h ↦ rw h (length-take_le (length f - 4) f (omega arith))
  | inr h ↦ rw h
]

measure_last_lem :
    (f : Bytes) (t : ℕ) → measure_last f (t, false) ≡ (t + length (strip f), has_size f)
unfolding measure_last
measure_last_lem f t = rw length-strip (ground arith)

-- The first loop adds up the length of the frame, and finds whether the last fragment has a size.
measure_fragments_lem :
    (n i : ℕ) (f : Bytes) (fs : List Bytes) (t : ℕ)
    → i + length (f ∷ fs) ≡ n
    → measure_fragments n i (f ∷ fs) (t, false)
      ≡ (t + length (assembled (f ∷ fs)), last_has_size (f ∷ fs))
unfolding measure_fragments
measure_fragments_lem n i f [] t h =
    let at_end : (i == n - 1) ≡ true = ground arith in rw at_end (measure_last_lem f t)
measure_fragments_lem n i f (g ∷ fs) t h =
    let before : (i == n - 1) ≡ false = ground arith in
    rw before (
      measure_fragments_lem n (i + 1) g fs (t + length f) (omega arith)
      ∙ ap (λ (s : ℕ). (s, last_has_size (g ∷ fs)))
          (omega (arith, length-append f (assembled (g ∷ fs)))))

collect_fragments_lem :
    (n i : ℕ) (f : Bytes) (fs : List Bytes) (out : Bytes)
    → i + length (f ∷ fs) ≡ n
    → collect_fragments n i (last_has_size (f ∷ fs)) (f ∷ fs) out ≡ out ++ assembled (f ∷ fs)
unfolding collect_fragments
collect_fragments_lem n i f [] out h = let at_end : (i == n - 1) ≡ true = ground arith in rw at_end
collect_fragments_lem n i f (g ∷ fs) out h =
    let before : (i == n - 1) ≡ false = ground arith in
    rw before (
      collect_fragments_lem n (i + 1) g fs (out ++ f) (omega arith)
      ∙ append_assoc out f (assembled (g ∷ fs)))

assemble_frame-cons :
    (frame : FrameFragment) (f : Bytes) (fs : List Bytes)
    → frame.fragments ≡ f ∷ fs
    → assemble_frame frame ≡ some (assembled (f ∷ fs))
unfolding assemble_frame
assemble_frame-cons frame f fs e =
    rw (e, assemble_frame)
      (rw (measure_fragments_lem (length (f ∷ fs)) 0 f fs 0 (omega arith))
        (ap some (collect_fragments_lem (length (f ∷ fs)) 0 f fs [] (omega arith))))

pub unassembled : (frame : FrameFragment) → frame.fragments ≡ [] → assemble_frame frame ≡ none
unfolding assemble_frame
unassembled frame e = rw (e, assemble_frame)

-- A frame of at least one fragment is always assembled: its bytes are those of the fragments in
-- their order, where the last one loses its trailing four bytes if it has that many and they read
-- as a size above zero and below a million.
pub assemble_frame-assembled :
    (frame : FrameFragment)
    → frame.fragments ≢ []
    → assemble_frame frame ≡ some (assembled frame.fragments)
assemble_frame-assembled frame h = by_fragments frame.fragments refl
  where
    by_fragments :
        (l : List Bytes)
        → frame.fragments ≡ l
        → assemble_frame frame ≡ some (assembled frame.fragments)
    by_fragments [] e = absurd (h e)
    by_fragments (f ∷ fs) e = assemble_frame-cons frame f fs e ∙ rw e

-- The size that the first loop computes is the length of the frame that the second one builds.
pub measured_size :
    (frame : FrameFragment) (out : Bytes)
    → assemble_frame frame ≡ some out
    → (measure_fragments (length frame.fragments) 0 frame.fragments (0, false)).0 ≡ length out
unfolding measure_fragments
measured_size frame out h = by_fragments frame.fragments refl
  where
    by_fragments :
        (l : List Bytes)
        → frame.fragments ≡ l
        → (measure_fragments (length frame.fragments) 0 frame.fragments (0, false)).0 ≡ length out
    by_fragments [] e = absurd (cc (unassembled frame e))
    by_fragments (f ∷ fs) e =
        rw (e, measure_fragments_lem (length (f ∷ fs)) 0 f fs 0 (omega arith))
          (omega
            (arith, ap length (some-injective _ _ (sym (assemble_frame-cons frame f fs e) ∙ h))))
