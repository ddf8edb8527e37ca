-- ===== src/Stream/Refinement.antt =====
-- The stream buffer of src/types.rs against an abstract view: the fragments of the frame in
-- progress, and the whole history of frames, with no bound and no packet headers.
use a9_v.Prelude.{
  ℕ, ◌-◌, ◌<◌, ◌≡◌, ◌≢◌, refl, sym, ap, ◌∙◌, List, [], ◌∷◌, ◌++◌, length, Bool, false, none, some,
  ltb, ◌==◌, if◌then◌else◌, arith, Bool-cases, Option-cases, inl, inr, if_rule₂, some-injective,
}
use a9_v.Wire.{Bytes}
use a9_v.Stream.{
  StreamBuffer, FrameFragment, new, add_complete_frame, store_assembled, add_fragment,
  complete_frame, start_new_frame, add_frame_fragment, complete_incomplete_frame, clear,
}
use a9_v.Stream.Assembly.{assembled, strip, assemble_frame-assembled}
use a9_v.Stream.Packets.{joined, complete_frame_lem, snoc-ne-nil}
use a9_v.Stream.Bounds.{
  Op, packet, sweep, store, reset, step, run, last_n, add_complete_frame-last_n,
}
use a9_v.Stream.View.{
  View, deliver, extend, finish, give_up, view_video, view_step, view_run, fragments_of, Shows,
}

other_fragment :
    (cmd flag pkg : ℕ) (p : Bytes) (b : StreamBuffer)
    → (cmd == 1) ≡ false
    → (add_fragment cmd flag pkg p b).0 ≡ b
unfolding add_fragment
other_fragment cmd flag pkg p b h = rw h (ground arith)

video_fragment :
    (flag pkg : ℕ) (p : Bytes) (b : StreamBuffer)
    → (add_fragment 1 flag pkg p b).0 ≡ (
        if flag == 250
        then start_new_frame pkg p b
        else if flag == 251
        then add_frame_fragment pkg p b
        else if flag == 252
        then (complete_frame pkg p b).0
        else b)
unfolding add_fragment
video_fragment flag pkg p b = ground arith

delivered :
    (m : ℕ) (b : StreamBuffer) (v : View)
    → b.current_frame ≡ none
    → b.frames ≡ last_n b.max_frames v.history
    → 0 < b.max_frames
    → b.max_frames ≡ m
    → (f : Bytes) → Shows m (add_complete_frame f b) (deliver f v)
unfolding add_complete_frame
delivered m b v e r h l f = record {
  positive = h;
  limit = l;
  partial = ap fragments_of e;
  nonempty = λ e. cc;
  recent = add_complete_frame-last_n f v.history b h r;
}

last_n-nil : (m : ℕ) → [] ≡ last_n m []
last_n-nil m = let none_left : 0 - m ≡ 0 = omega arith in rw none_left

abbrev ResultShows : ℕ → StreamBuffer × Bool → View → Type 0
ResultShows m r w = Shows m r.0 w

module _ (m : ℕ) (b : StreamBuffer) (v : View) (s : Shows m b v) where
  start-Shows :
      (pkg : ℕ) (p : Bytes)
      → Shows m (start_new_frame pkg p b) (record v { partial = some (p ∷ []) })
  unfolding start_new_frame
  start-Shows pkg p = record {
    positive = s.positive;
    limit = s.limit;
    partial = refl;
    nonempty = λ e. cc;
    recent = s.recent;
  }

  deliver-Shows :
      (f : Bytes) → Shows m (add_complete_frame f (record b { current_frame = none })) (deliver f v)
  deliver-Shows f =
      delivered m (record b { current_frame = none }) v refl s.recent s.positive s.limit f

  extend-Shows : (pkg : ℕ) (p : Bytes) → Shows m (add_frame_fragment pkg p b) (extend p v)
  unfolding add_frame_fragment
  extend-Shows pkg p = elim (Option-cases b.current_frame) [
    | inl e ↦ let n = sym s.partial ∙ ap fragments_of e in rw (e, n, add_frame_fragment, extend) s
    | inr (g, e) ↦
        let n = sym s.partial ∙ ap fragments_of e in
        rw (e, n, add_frame_fragment, extend)
          (record {
            positive = s.positive;
            limit = s.limit;
            partial = refl;
            nonempty = λ q. snoc-ne-nil g.fragments p (some-injective _ _ q);
            recent = s.recent;
          })
  ]

  finish-Shows : (pkg : ℕ) (p : Bytes) → Shows m (complete_frame pkg p b).0 (finish p v)
  unfolding complete_frame
  finish-Shows pkg p = elim (Option-cases b.current_frame) [
    | inl e ↦ let n = sym s.partial ∙ ap fragments_of e in rw (e, n, complete_frame, finish) s
    | inr (g, e) ↦
        let n = sym s.partial ∙ ap fragments_of e in
        let done = ap (λ r. r.0) (complete_frame_lem g b pkg p e) in
        rw (done, n, finish) (deliver-Shows (joined g.fragments ++ strip p))
  ]

  store_assembled-Shows :
      (g : FrameFragment)
      → g.fragments ≢ []
      → Shows m
          (store_assembled g (record b { current_frame = none })).0
          (deliver (assembled g.fragments) v)
  unfolding store_assembled
  store_assembled-Shows g h =
      rw (assemble_frame-assembled g h, store_assembled) (deliver-Shows (assembled g.fragments))

  emptied-Shows : Shows m (record b { current_frame = none }) (record v { partial = none })
  emptied-Shows = record {
    positive = s.positive;
    limit = s.limit;
    partial = refl;
    nonempty = λ e. cc;
    recent = s.recent;
  }

  give_up-Shows : Shows m (complete_incomplete_frame b).0 (give_up v)
  unfolding complete_incomplete_frame
  give_up-Shows = elim (Option-cases b.current_frame) [
    | inl e ↦
        let n = sym s.partial ∙ ap fragments_of e in rw (e, n, complete_incomplete_frame, give_up) s
    | inr (g, e) ↦
        let n = sym s.partial ∙ ap fragments_of e in
        rw (e, n, complete_incomplete_frame, give_up)
          (if_rule₂ (ResultShows m) (ltb 1 (length g.fragments))
            (store_assembled-Shows g (λ q. s.nonempty (n ∙ ap some q))) emptied-Shows)
  ]

  video-Shows :
      (flag pkg : ℕ) (p : Bytes) → Shows m (add_fragment 1 flag pkg p b).0 (view_video flag p v)
  video-Shows flag pkg p = rw video_fragment (
      if_rule₂ (Shows m) (flag == 250) (start-Shows pkg p) (
        if_rule₂ (Shows m) (flag == 251) (extend-Shows pkg p)
          (if_rule₂ (Shows m) (flag == 252) (finish-Shows pkg p) s)))

  packet-Shows :
      (cmd flag pkg : ℕ) (p : Bytes)
      → Shows m (add_fragment cmd flag pkg p b).0 (view_step (packet cmd flag pkg p) v)
  packet-Shows cmd flag pkg p = elim (Bool-cases (cmd == 1)) [
    | inl h ↦ let one : cmd ≡ 1 = ground arith in rw one (video-Shows flag pkg p)
    | inr h ↦ rw (other_fragment cmd flag pkg p b h, h) s
  ]

-- One call of the buffer is one step of the view.
step-Shows :
    (m : ℕ) (o : Op) (b : StreamBuffer) (v : View)
    → Shows m b v
    → Shows m (step o b) (view_step o v)
unfolding step add_complete_frame clear
step-Shows m (packet cmd flag pkg p) b v s = packet-Shows m b v s cmd flag pkg p
step-Shows m sweep b v s = give_up-Shows m b v s
step-Shows m (store f) b v s = record {
  positive = s.positive;
  limit = s.limit;
  partial = s.partial;
  nonempty = s.nonempty;
  recent = add_complete_frame-last_n f v.history b s.positive s.recent;
}
step-Shows m reset b v s = record {
  positive = s.positive;
  limit = s.limit;
  partial = refl;
  nonempty = λ e. cc;
  recent = last_n-nil _;
}

run-Shows :
    (m : ℕ) (os : List Op) (b : StreamBuffer) (v : View)
    → Shows m b v
    → Shows m (run os b) (view_run os v)
unfolding run
run-Shows m [] b v s = s
run-Shows m (o ∷ os) b v s = run-Shows m os (step o b) (view_step o v) (step-Shows m o b v s)

new-Shows : (m : ℕ) → 0 < m → Shows m (new m) (record { partial = none; history = [] })
unfolding new
new-Shows m h = record {
  positive = h;
  limit = refl;
  partial = refl;
  nonempty = λ e. cc;
  recent = last_n-nil _;
}

-- After any calls on a new buffer for `m` frames, `m` not zero, the buffer holds the last `m` of
-- the frames that the view has recorded, and its frame in progress has the view's fragments.
pub run-new :
    (os : List Op) (m : ℕ)
    → 0 < m
    → let b = run os (new m) in
      let v = view_run os (record { partial = none; history = [] }) in
      (b.frames ≡ last_n m v.history) × (fragments_of b.current_frame ≡ v.partial)
run-new os m h =
    let s = run-Shows m os (new m) (record { partial = none; history = [] }) (new-Shows m h) in
    (
      s.recent
          ∙ ap (λ k. last_n k (view_run os (record { partial = none; history = [] })).history)
              s.limit,
      s.partial,
    )
