-- ===== src/Web/Routes.antt =====
-- The requests that the router of src/web/server.rs hands to a handler, with what the path or the
-- query gives. The two pages and the static files are left out.
pub mod ReadOnly
use a9_v.Prelude.{none}
use a9_v.Wire.{Bytes}
use a9_v.Runtime.{Host, M, ◌>>=◌, pure}
use a9_v.Web.{Json, Response}
use a9_v.Web.Info.{list_cameras, get_camera_info, debug_buffer}
use a9_v.Web.Video.{get_video_stream, get_mjpeg_stream}
use a9_v.Web.Control.{Reply, start_streaming, stop_streaming, trigger_snapshot}
use a9_v.Web.Legacy.{
  ConfigCheckParams, Query, handle_config_check, handle_bootstrap_registration,
  handle_bootstrap_confirm,
}

pub data Request : Type 0 where
  api_cameras : Request
  api_info api_snapshot api_stream api_mjpeg api_debug api_start api_stop : Bytes → Request
  config_check : ConfigCheckParams → Request
  register_devices confirm : Query → Request

module _ {Value : Type 0} (host : Host Value) (js : Json Value) where
  abbrev pub without_task : M (Response Value) → M (Reply Value)
  without_task m = do response ← m; pure (response, none)

  unfoldable pub serve : Request → M (Reply Value)
  serve api_cameras = without_task (list_cameras host js)
  serve (api_info device_id) = without_task (get_camera_info host js device_id)
  serve (api_snapshot device_id) = trigger_snapshot host js device_id
  serve (api_stream device_id) = without_task (get_video_stream host js device_id)
  serve (api_mjpeg device_id) = without_task (get_mjpeg_stream host js device_id)
  serve (api_debug device_id) = without_task (debug_buffer host js device_id)
  serve (api_start device_id) = start_streaming host js device_id
  serve (api_stop device_id) = stop_streaming host js device_id
  serve (config_check params) = without_task (handle_config_check host js params)
  serve (register_devices params) = without_task (handle_bootstrap_registration host js params)
  serve (confirm params) = without_task (handle_bootstrap_confirm host js params)
