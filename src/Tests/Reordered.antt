-- ===== src/Tests/Reordered.antt =====
-- Two cameras in either order.
use a9_v.Prelude.{[], ◌∷◌}
use a9_v.Prelude.Map.{Map}
use a9_v.Wire.{text}
use a9_v.Camera.{CameraConnection}
use a9_v.Camera
use a9_v.Runtime.{World}
use a9_v.Web.Info.{debug_buffer}
use a9_v.Web.Video.{get_video_stream, get_mjpeg_stream}
use a9_v.Web.Reordered.{
  HasDistinctIds, exchanged, with_cameras, AnswersAlike, Reordered-AnswersAlike,
}
use a9_v.Tests.Setup.{plain_host, plain_json, world}

abbrev porch : CameraConnection
porch = Camera.new (text "porch") 7 (7, 6123) (0, 0, 0)

abbrev yard : CameraConnection
yard = Camera.new (text "yard") 8 (8, 6123) (0, 0, 0)

abbrev porch_first : World
porch_first = with_cameras ((7, porch) ∷ (8, yard) ∷ []) world

abbrev yard_first : Map CameraConnection
yard_first = (8, yard) ∷ (7, porch) ∷ []

both-HasDistinctIds : HasDistinctIds porch_first.manager.cameras
unfolding Camera.new
both-HasDistinctIds = ((λ e. cc, tt), (tt, tt))

Reordered-AnswersAlike_example :
    AnswersAlike
      (get_video_stream plain_host plain_json (text "yard"))
      porch_first
      (with_cameras yard_first porch_first)
    × AnswersAlike
        (get_mjpeg_stream plain_host plain_json (text "yard"))
        porch_first
        (with_cameras yard_first porch_first)
    × AnswersAlike
        (debug_buffer plain_host plain_json (text "yard"))
        porch_first
        (with_cameras yard_first porch_first)
Reordered-AnswersAlike_example =
    Reordered-AnswersAlike plain_host plain_json (text "yard") yard_first porch_first
      (exchanged (7, porch) (8, yard) []) both-HasDistinctIds
