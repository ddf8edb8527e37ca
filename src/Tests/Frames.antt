-- ===== src/Tests/Frames.antt =====
-- Frames that StreamBuffer of src/types.rs puts together.
use a9_v.Prelude.{◌≡◌, ◌≢◌, refl, List, [], ◌∷◌, ◌++◌, none, some, arith, false}
use a9_v.Wire.{to_le}
use a9_v.Stream.{FrameFragment, StreamBuffer, new, add_fragment, add_complete_frame, assemble_frame}
use a9_v.Stream.Assembly.{assembled, assemble_frame-assembled}
use a9_v.Stream.Packets.{video, audio, add_middles, payloads, joined, frame_delivered}
use a9_v.Stream.Bounds.{Op, packet, store, run, IsBounded, last_n}
use a9_v.Stream.View.{view_run, fragments_of}
use a9_v.Stream.Refinement.{run-new}

abbrev calls : List Op
calls =
    store (1 ∷ [])
    ∷ store (2 ∷ [])
    ∷ packet 1 250 7 (3 ∷ [])
    ∷ packet 6 255 8 (9 ∷ [])
    ∷ packet 1 251 9 (4 ∷ [])
    ∷ packet 1 252 10 (5 ∷ 5 ∷ 0 ∷ 0 ∷ 0 ∷ [])
    ∷ packet 1 250 11 (6 ∷ [])
    ∷ []

run-new_example :
    let b = run calls (new 2) in
    let v = view_run calls (record { partial = none; history = [] }) in
    (b.frames ≡ last_n 2 v.history) × (fragments_of b.current_frame ≡ v.partial)
run-new_example = run-new calls 2 (omega arith)

abbrev stored : StreamBuffer
stored = record { frames = (1 ∷ []) ∷ (2 ∷ []) ∷ []; max_frames = 2; current_frame = none }

frame_delivered_example :
    (add_fragment 1 252 12 ((6 ∷ []) ++ to_le 4 3) (
      add_middles
        (video 10 (4 ∷ []) ∷ audio 255 11 (9 ∷ []) ∷ [])
        (add_fragment 1 250 9 (3 ∷ []) stored).0)).0
    ≡ add_complete_frame
        ((3 ∷ []) ++ (joined (payloads (video 10 (4 ∷ []) ∷ audio 255 11 (9 ∷ []) ∷ [])) ++ 6 ∷ []))
        (record stored { current_frame = none })
frame_delivered_example =
    frame_delivered stored 9 12 (3 ∷ []) (6 ∷ []) (video 10 (4 ∷ []) ∷ audio 255 11 (9 ∷ []) ∷ []) 3
      (omega arith) (omega arith)

abbrev fragment : FrameFragment
fragment = record {
  frame_type = 1;
  pkg_id = 0;
  fragments = (3 ∷ []) ∷ (5 ∷ 2 ∷ 0 ∷ 0 ∷ 0 ∷ []) ∷ [];
  expected_size = none;
  is_complete = false;
}

fragment-nonempty : fragment.fragments ≢ []
fragment-nonempty = λ e. cc

assemble_frame-assembled_example : assemble_frame fragment ≡ some (assembled fragment.fragments)
assemble_frame-assembled_example = assemble_frame-assembled fragment fragment-nonempty

stored-IsBounded : IsBounded 2 stored
stored-IsBounded = record { limit = refl; positive = omega arith; within = omega arith }
