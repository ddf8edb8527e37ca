-- ===== src/Manager.antt =====
-- CameraManager of src/types.rs: a camera for each address, under a name made from the address. All
-- sockets are bound to 0.0.0.0, so an address is an IPv4 address, given as its 32-bit number.
pub mod Name
pub mod Cameras
use a9_v.Prelude.{
  ℕ, ◌+◌, ◌/◌, ◌%◌, List, [], ◌∷◌, ◌++◌, Bool, Option, none, some, ltb, ◌==◌, if◌then◌else◌,
}
use a9_v.Prelude.Map.{Map, lookup, insert, remove, keys}
use a9_v.Wire.{Bytes, text}
use a9_v.Config.{AppConfig}
use a9_v.Camera.{CameraConnection}
use a9_v.Camera

pub record CameraManager : Type 0 where
  pub cameras : Map CameraConnection
  pub config : AppConfig

unfoldable pub new : AppConfig → CameraManager
new config = record { cameras = []; config = config }

-- A number below 256 in decimal.
abbrev pub decimal : ℕ → Bytes
decimal n =
    if ltb n 10
    then (48 + n) ∷ []
    else if ltb n 100
    then (48 + n / 10) ∷ (48 + n % 10) ∷ []
    else (48 + n / 100) ∷ (48 + n / 10 % 10) ∷ (48 + n % 10) ∷ []

abbrev dot : ℕ
dot = b'.'

-- `IpAddr::to_string`
abbrev pub ip_to_string : ℕ → Bytes
ip_to_string ip =
    decimal (ip / 16777216 % 256)
    ++ (dot
        ∷ (decimal (ip / 65536 % 256)
            ++ (dot ∷ (decimal (ip / 256 % 256) ++ (dot ∷ decimal (ip % 256))))))

-- `str::split` on a dot: `part` is the part that is being read.
unfoldable pub split : Bytes → Bytes → List Bytes
split part [] = part ∷ []
split part (c ∷ cs) =
    let next = part ∷ split [] cs in
    let same = split (part ++ c ∷ []) cs in if c == dot then next else same

abbrev pub last_or : Bytes → List Bytes → Bytes
last_or d [] = d
last_or d (p ∷ []) = p
last_or d (p ∷ q ∷ ps) = last_or d (q ∷ ps)

unfoldable pub device_name : ℕ → Bytes
unfolding split
device_name ip = text "cam" ++ last_or (text "0") (split [] (ip_to_string ip))

-- The map is keyed by address, and the result is the camera's shared cell, which the address names.
-- The three instants are those that a new camera reads.
unfoldable pub get_or_create_camera : ℕ → ℕ × ℕ × ℕ → CameraManager → CameraManager
unfolding device_name Camera.new
get_or_create_camera ip times m = elim (lookup ip m.cameras) [
  | some camera ↦ m
  | none ↦ record m {
    cameras = insert ip (Camera.new (device_name ip) ip (ip, 6123) times) m.cameras;
  }
]

unfoldable pub remove_camera : ℕ → CameraManager → CameraManager
remove_camera ip m = record m { cameras = remove ip m.cameras }

unfoldable pub get_camera : ℕ → CameraManager → Option CameraConnection
get_camera ip m = lookup ip m.cameras

unfoldable pub list_cameras : CameraManager → List ℕ
list_cameras m = keys m.cameras
