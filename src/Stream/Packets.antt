-- ===== src/Stream/Packets.antt =====
-- A whole frame as the packets of `add_fragment` in src/types.rs deliver it.
use a9_v.Prelude.{
  ℕ, ◌-◌, ◌<◌, ◌^◌, ◌≡◌, ◌≢◌, refl, sym, ap, ◌∙◌, List, [], ◌∷◌, ◌++◌, length, take, true, false,
  none, some, arith, append_assoc, append-nil, length-append, Option-cases, inl, inr,
  take-append_length, drop-append_length,
}
use a9_v.Wire.{Bytes, to_le, from_le-to_le4}
use a9_v.Stream.{
  FrameFragment, StreamBuffer, trailing_size, add_fragment, add_complete_frame, complete_frame,
  store_assembled, read_expected, last?, assemble_frame,
}
use a9_v.Stream.Assembly.{assembled, strip, has_size, assemble_frame-assembled}

-- What a camera may send between the first and the last packet of a frame.
pub data Middle : Type 0 where
  video : ℕ → Bytes → Middle
  audio : ℕ → ℕ → Bytes → Middle

abbrev add_middle : Middle → StreamBuffer → StreamBuffer
add_middle (video pkg p) b = (add_fragment 1 251 pkg p b).0
add_middle (audio flag pkg p) b = (add_fragment 6 flag pkg p b).0

abbrev pub add_middles : List Middle → StreamBuffer → StreamBuffer
add_middles [] b = b
add_middles (m ∷ ms) b = add_middles ms (add_middle m b)

abbrev pub payloads : List Middle → List Bytes
payloads [] = []
payloads (video pkg p ∷ ms) = p ∷ payloads ms
payloads (audio flag pkg p ∷ ms) = payloads ms

abbrev pub joined : List Bytes → Bytes
joined [] = []
joined (f ∷ fs) = f ++ joined fs

abbrev in_progress : List Bytes → FrameFragment
in_progress fs = record {
  frame_type = 1;
  pkg_id = 0;
  fragments = fs;
  expected_size = none;
  is_complete = false;
}

-- A buffer whose frame in progress has these fragments.
abbrev opened : StreamBuffer → List Bytes → StreamBuffer
opened b fs = record b { current_frame = some (in_progress fs) }

add_middle-opened :
    (m : Middle) (b : StreamBuffer) (fs : List Bytes)
    → add_middle m (opened b fs) ≡ opened b (fs ++ payloads (m ∷ []))
unfolding add_fragment
add_middle-opened (video pkg p) b fs = refl
add_middle-opened (audio flag pkg p) b fs = ground (arith, append-nil fs)

payloads-cons :
    (m : Middle) (ms : List Middle) → payloads (m ∷ ms) ≡ payloads (m ∷ []) ++ payloads ms
payloads-cons (video pkg p) ms = refl
payloads-cons (audio flag pkg p) ms = refl

add_middles-opened :
    (ms : List Middle) (b : StreamBuffer) (fs : List Bytes)
    → add_middles ms (opened b fs) ≡ opened b (fs ++ payloads ms)
add_middles-opened [] b fs = rw append-nil
add_middles-opened (m ∷ ms) b fs =
    ap (add_middles ms) (add_middle-opened m b fs)
    ∙ add_middles-opened ms b (fs ++ payloads (m ∷ []))
    ∙ ap (opened b) (
        append_assoc fs (payloads (m ∷ [])) (payloads ms) ∙ ap (◌++◌ fs) (sym (payloads-cons m ms)))

before_size : (f : Bytes) (size : ℕ) → length (f ++ to_le 4 size) - 4 ≡ length f
before_size f size = omega (arith, length-append f (to_le 4 size))

trailing_size-append :
    (f : Bytes) (size : ℕ) → size < 2 ^ 32 → trailing_size (f ++ to_le 4 size) ≡ size
trailing_size-append f size h =
    rw (before_size f size, drop-append_length f (to_le 4 size)) (from_le-to_le4 size h)

strip-append : (f : Bytes) (size : ℕ) → 0 < size → size < 1000000 → strip (f ++ to_le 4 size) ≡ f
strip-append f size p q = rw sized (
    ap (λ n. take n (f ++ to_le 4 size)) (before_size f size) ∙ take-append_length f (to_le 4 size))
  where
    sized : has_size (f ++ to_le 4 size) ≡ true
    sized =
        rw (trailing_size-append f size (omega arith))
          (ground (arith, length-append f (to_le 4 size)))

assembled-append : (fs : List Bytes) (f : Bytes) → assembled (fs ++ f ∷ []) ≡ joined fs ++ strip f
assembled-append [] f = refl
assembled-append (g ∷ []) f = sym (append_assoc g [] (strip f))
assembled-append (g ∷ h ∷ fs) f =
    ap (◌++◌ g) (assembled-append (h ∷ fs) f) ∙ sym (append_assoc g (joined (h ∷ fs)) (strip f))

read_expected-fragments : (g : FrameFragment) → (read_expected g).fragments ≡ g.fragments
read_expected-fragments g = elim (Option-cases (last? g.fragments)) [
  | inl e ↦ rw (e, read_expected)
  | inr (f, e) ↦ rw (e, read_expected) (ground arith)
]

pub snoc-ne-nil : (fs : List Bytes) (f : Bytes) → fs ++ f ∷ [] ≢ []
snoc-ne-nil [] f = λ e. cc
snoc-ne-nil (g ∷ fs) f = λ e. cc

assemble-read_expected :
    (g : FrameFragment) (fs : List Bytes) (f : Bytes)
    → g.fragments ≡ fs ++ f ∷ []
    → assemble_frame (read_expected g) ≡ some (joined fs ++ strip f)
assemble-read_expected g fs f e =
    let e' = read_expected-fragments g ∙ e in
    assemble_frame-assembled (read_expected g) (λ n. snoc-ne-nil fs f (sym e' ∙ n))
    ∙ ap some (ap assembled e' ∙ assembled-append fs f)

-- With a frame in progress the last packet always completes it: the fragments so far and the
-- stripped payload are stored as one frame, and no frame is in progress any more.
pub complete_frame_lem :
    (g : FrameFragment) (b : StreamBuffer) (pkg : ℕ) (p : Bytes)
    → b.current_frame ≡ some g
    → complete_frame pkg p b ≡ (
      add_complete_frame (joined g.fragments ++ strip p) (record b { current_frame = none }),
      true,
    )
unfolding complete_frame
complete_frame_lem g b pkg p e = rw (
  e,
  complete_frame,
  assemble-read_expected (record g { fragments = g.fragments ++ p ∷ [] }) g.fragments p refl,
  store_assembled,
)

-- A frame that is sent as a first packet, any further ones, and a last one that ends in the four
-- bytes of a size above zero and below a million, is stored as the first payload, the further
-- video payloads in their order and the last payload without the size. Audio packets in between
-- change nothing, and a frame that was in progress before is dropped.
pub frame_delivered :
    (b : StreamBuffer) (first_pkg last_pkg : ℕ) (first last : Bytes) (ms : List Middle) (size : ℕ)
    → 0 < size
    → size < 1000000
    → (add_fragment 1 252 last_pkg
        (last ++ to_le 4 size)
        (add_middles ms (add_fragment 1 250 first_pkg first b).0)).0
      ≡ add_complete_frame
          (first ++ (joined (payloads ms) ++ last))
          (record b { current_frame = none })
unfolding add_fragment
frame_delivered b first_pkg last_pkg first last ms size p q = rw add_middles-opened (
    ap (λ r. r.0)
      (complete_frame_lem (in_progress (first ∷ payloads ms)) (opened b (first ∷ payloads ms))
        last_pkg (last ++ to_le 4 size) refl)
    ∙ rw (strip-append last size p q, append_assoc))
