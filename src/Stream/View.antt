-- ===== src/Stream/View.antt =====
-- What StreamBuffer of src/types.rs promises: the fragments of the frame in progress, and the history
-- of all frames since the last reset.
use a9_v.Prelude.{
  ℕ, ◌<◌, ◌≡◌, ◌≢◌, List, [], ◌∷◌, ◌++◌, length, Option, none, some, ltb, ◌==◌, if◌then◌else◌,
}
use a9_v.Wire.{Bytes}
use a9_v.Stream.{StreamBuffer, FrameFragment}
use a9_v.Stream.Assembly.{assembled, strip}
use a9_v.Stream.Packets.{joined}
use a9_v.Stream.Bounds.{Op, packet, sweep, store, reset, last_n}

pub record View : Type 0 where
  pub partial : Option (List Bytes)
  pub history : List Bytes

abbrev pub deliver : Bytes → View → View
deliver f v = record { partial = none; history = v.history ++ f ∷ [] }

abbrev pub extend : Bytes → View → View
extend p v = elim v.partial [ none ↦ v | some fs ↦ record v { partial = some (fs ++ p ∷ []) } ]

abbrev pub finish : Bytes → View → View
finish p v = elim v.partial [ none ↦ v | some fs ↦ deliver (joined fs ++ strip p) v ]

abbrev pub give_up : View → View
give_up v = elim v.partial [
  | none ↦ v
  | some fs ↦ if ltb 1 (length fs) then deliver (assembled fs) v else record v { partial = none }
]

abbrev pub view_video : ℕ → Bytes → View → View
view_video flag p v =
    if flag == 250
    then record v { partial = some (p ∷ []) }
    else if flag == 251
    then extend p v
    else if flag == 252
    then finish p v
    else v

-- Only command 1 changes the view.
abbrev pub view_step : Op → View → View
view_step (packet cmd flag pkg p) v = if cmd == 1 then view_video flag p v else v
view_step sweep v = give_up v
view_step (store f) v = record v { history = v.history ++ f ∷ [] }
view_step reset v = record { partial = none; history = [] }

abbrev pub view_run : List Op → View → View
view_run [] v = v
view_run (o ∷ os) v = view_run os (view_step o v)

abbrev pub fragments_of : Option FrameFragment → Option (List Bytes)
fragments_of none = none
fragments_of (some g) = some g.fragments

-- The buffer holds the fragments of the view, and the last `max_frames` of its history.
pub record Shows (m : ℕ) (b : StreamBuffer) (v : View) : Type 0 where
  pub positive : 0 < b.max_frames
  pub limit : b.max_frames ≡ m
  pub partial : fragments_of b.current_frame ≡ v.partial
  pub nonempty : v.partial ≢ some []
  pub recent : b.frames ≡ last_n b.max_frames v.history
