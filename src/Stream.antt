-- ===== src/Stream.antt =====
-- StreamBuffer of src/types.rs: the complete frames of a camera, and the frame that is being put
-- together from UDP fragments. A method returns the new buffer, with its result if it has one.
pub mod Assembly
pub mod Bounds
pub mod Packets
pub mod View
pub mod Refinement
use a9_v.Prelude.{
  ℕ, ◌+◌, ◌-◌, ◌*◌, ◌%◌, ◌^◌, List, [], ◌∷◌, ◌++◌, length, take, drop, Bool, true, false, ◌&&◌,
  Option, none, some, ltb, leb, ◌==◌, if◌then◌else◌,
}
use a9_v.Wire.{Bytes, from_le}

pub record FrameFragment : Type 0 where
  pub frame_type : ℕ
  pub pkg_id : ℕ
  pub fragments : List Bytes
  pub expected_size : Option ℕ
  pub is_complete : Bool

-- `frames` has the oldest frame first.
pub record StreamBuffer : Type 0 where
  pub frames : List Bytes
  pub max_frames : ℕ
  pub current_frame : Option FrameFragment

unfoldable pub new : ℕ → StreamBuffer
new max_frames = record { frames = []; max_frames = max_frames; current_frame = none }

-- `u32::from_le_bytes` of the last four bytes.
abbrev pub trailing_size : Bytes → ℕ
trailing_size f = from_le (drop (length f - 4) f)

-- The body of the first loop of `assemble_frame` at the last fragment.
unfoldable pub measure_last : Bytes → ℕ × Bool → ℕ × Bool
measure_last f (total, has) =
    if leb 4 (length f)
    then (if ltb 0 (trailing_size f) && ltb (trailing_size f) 1000000
        then (total + (length f - 4), true)
        else (total + length f, has))
    else (total + length f, has)

-- The first loop: `n` is the number of fragments and `i` the index of the next one.
unfoldable pub measure_fragments : ℕ → ℕ → List Bytes → ℕ × Bool → ℕ × Bool
unfolding measure_last
measure_fragments n i [] acc = acc
measure_fragments n i (f ∷ fs) acc =
    measure_fragments n (i + 1) fs
      (if i == n - 1 then measure_last f acc else (acc.0 + length f, acc.1))

-- The second loop, which appends each fragment to the frame.
unfoldable pub collect_fragments : ℕ → ℕ → Bool → List Bytes → Bytes → Bytes
collect_fragments n i has [] out = out
collect_fragments n i has (f ∷ fs) out =
    collect_fragments n (i + 1) has fs
      (out ++ (if i == n - 1 && has then take (length f - 4) f else f))

-- The comparison of the total with `expected_size` only logs.
unfoldable pub assemble_frame : FrameFragment → Option Bytes
unfolding measure_fragments collect_fragments
assemble_frame frame = elim frame.fragments [
  | [] ↦ none
  | f ∷ fs ↦
      let n = length (f ∷ fs) in
      let has = (measure_fragments n 0 (f ∷ fs) (0, false)).1 in
      some (collect_fragments n 0 has (f ∷ fs) [])
]

abbrev pop_front : List Bytes → List Bytes
pop_front [] = []
pop_front (f ∷ fs) = fs

unfoldable pub add_complete_frame : Bytes → StreamBuffer → StreamBuffer
add_complete_frame frame b =
    let kept = if leb b.max_frames (length b.frames) then pop_front b.frames else b.frames in
    record b { frames = kept ++ frame ∷ [] }

unfoldable pub start_new_frame : ℕ → Bytes → StreamBuffer → StreamBuffer
start_new_frame pkg_id payload b = record b {
  current_frame = some (record {
    frame_type = 1;
    pkg_id = 0;
    fragments = payload ∷ [];
    expected_size = none;
    is_complete = false;
  });
}

unfoldable pub add_frame_fragment : ℕ → Bytes → StreamBuffer → StreamBuffer
add_frame_fragment pkg_id payload b = elim b.current_frame [
  | some frame ↦ record b {
    current_frame = some (record frame { fragments = frame.fragments ++ payload ∷ [] });
  }
  | none ↦ b
]

-- The frame is assembled and stored, or lost.
unfoldable pub store_assembled : FrameFragment → StreamBuffer → StreamBuffer × Bool
unfolding assemble_frame add_complete_frame
store_assembled frame b = elim (assemble_frame frame) [
  | some complete ↦ (add_complete_frame complete b, true)
  | none ↦ (b, false)
]

abbrev pub last? : List Bytes → Option Bytes
last? [] = none
last? (f ∷ []) = some f
last? (f ∷ g ∷ fs) = last? (g ∷ fs)

abbrev read_expected : FrameFragment → FrameFragment
read_expected frame = elim (last? frame.fragments) [
  | some f ↦
      if leb 4 (length f) then record frame { expected_size = some (trailing_size f) } else frame
  | none ↦ frame
]

unfoldable pub complete_frame : ℕ → Bytes → StreamBuffer → StreamBuffer × Bool
unfolding store_assembled
complete_frame pkg_id payload b = elim b.current_frame [
  | some frame ↦
      store_assembled (read_expected (record frame { fragments = frame.fragments ++ payload ∷ [] }))
        (record b { current_frame = none })
  | none ↦ (b, false)
]

-- `match (cmd, msg_flag)`; what `complete_frame` returns is only logged.
unfoldable pub add_fragment : ℕ → ℕ → ℕ → Bytes → StreamBuffer → StreamBuffer × Bool
unfolding start_new_frame add_frame_fragment complete_frame
add_fragment cmd msg_flag pkg_id payload b =
    if cmd == 6 && msg_flag == 255
    then (b, true)
    else if cmd == 6
    then (b, true)
    else if cmd == 1 && msg_flag == 250
    then (start_new_frame pkg_id payload b, true)
    else if cmd == 1 && msg_flag == 251
    then (add_frame_fragment pkg_id payload b, true)
    else if cmd == 1 && msg_flag == 252
    then ((complete_frame pkg_id payload b).0, true)
    else (b, false)

unfoldable pub complete_incomplete_frame : StreamBuffer → StreamBuffer × Bool
unfolding store_assembled
complete_incomplete_frame b = elim b.current_frame [
  | some frame ↦
      if ltb 1 (length frame.fragments)
      then store_assembled frame (record b { current_frame = none })
      else (record b { current_frame = none }, false)
  | none ↦ (b, false)
]

unfoldable pub get_latest_frame : StreamBuffer → Option Bytes
get_latest_frame b = last? b.frames

unfoldable pub get_all_frames : StreamBuffer → List Bytes
get_all_frames b = b.frames

unfoldable pub frame_count : StreamBuffer → ℕ
frame_count b = length b.frames

unfoldable pub clear : StreamBuffer → StreamBuffer
clear b = record b { frames = []; current_frame = none }

unfoldable pub get_received_packages : StreamBuffer → List ℕ
get_received_packages b = elim b.current_frame [ some frame ↦ frame.pkg_id ∷ [] | none ↦ [] ]

-- A deprecated method that only logs.
unfoldable pub add_frame : Bytes → StreamBuffer → StreamBuffer
add_frame frame b = b

unfoldable pub get_latest_data : StreamBuffer → Bytes
unfolding get_latest_frame
get_latest_data b = elim (get_latest_frame b) [ some frame ↦ frame | none ↦ [] ]

abbrev sum_lengths : List Bytes → ℕ
sum_lengths [] = 0
sum_lengths (f ∷ fs) = length f + sum_lengths fs

unfoldable pub current_size : StreamBuffer → ℕ
current_size b = sum_lengths b.frames

-- `usize` arithmetic, in a release build, where it wraps.
unfoldable pub max_size : StreamBuffer → ℕ
max_size b = b.max_frames * 1024 * 1024 % 2 ^ 64
