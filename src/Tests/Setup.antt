-- ===== src/Tests/Setup.antt =====
-- A host and a world to run the code of src/router on: a simple buffer, texts of one byte, and one
-- connected camera.
use a9_v.Prelude.{
  ℕ, ◌<◌, ◌≤◌, ◌≡◌, refl, List, [], ◌∷◌, ◌++◌, String, length, take, drop, Bool, true, false,
  Option, none, some, leb, if◌then◌else◌, arith, map,
}
use a9_v.Prelude.Map.{Map}
use a9_v.Wire.{Bytes, Buf, from_le, to_le}
use a9_v.Camera.{CameraConnection}
use a9_v.Camera
use a9_v.Config
use a9_v.Runtime.{Host, World, Mode, reading}
use a9_v.Web.{Json, to_upper}
use a9_v.Runtime.Sends.{Delivers}

abbrev take_u8 : Bytes → Option (ℕ × Bytes)
take_u8 [] = none
take_u8 (a ∷ r) = some (a, r)

abbrev take_u16 : Bytes → Option (ℕ × Bytes)
take_u16 (a ∷ b ∷ r) = some (from_le (a ∷ b ∷ []), r)
take_u16 _ = none

abbrev take_u32 : Bytes → Option (ℕ × Bytes)
take_u32 (a ∷ b ∷ c ∷ d ∷ r) = some (from_le (a ∷ b ∷ c ∷ d ∷ []), r)
take_u32 _ = none

abbrev take_slice : ℕ → Bytes → Option (Bytes × Bytes)
take_slice n r = if leb n (length r) then some (take n r, drop n r) else none

pub take_slice_lem : (n : ℕ) (r : Bytes) → n ≤ length r → take_slice n r ≡ some (take n r, drop n r)
take_slice_lem n r h = ground arith

abbrev pub plain_buf : Buf
plain_buf = record {
  get_u8 = take_u8;
  get_u16_le = take_u16;
  get_u32_le = take_u32;
  copy_to_slice = take_slice;
  put_u8 = λ s n. s ++ n ∷ [];
  put_u16_le = λ s n. s ++ to_le 2 n;
  put_u32_le = λ s n. s ++ to_le 4 n;
  put_slice = λ s r. s ++ r;
  get_u8_lem = λ a r. refl;
  get_u16_le_lem = λ a b r. refl;
  get_u32_le_lem = λ a b c d r. refl;
  copy_to_slice_lem = take_slice_lem;
  put_u8_lem = λ s n. refl;
  put_u16_le_lem = λ s n. refl;
  put_u32_le_lem = λ s n. refl;
  put_slice_lem = λ s r. refl;
}

-- Readers share the lock; a writer has it alone.
abbrev no_writer : List Mode → Bool
no_writer [] = true
no_writer (reading ∷ l) = no_writer l
no_writer (_ ∷ l) = false

abbrev no_guard : List Mode → Bool
no_guard [] = true
no_guard (_ ∷ l) = false

abbrev first_key : Map ℕ → Option ℕ
first_key [] = none
first_key ((k, _) ∷ m) = some k

-- A text of one byte is the number that it stands for; an object is its first field.
abbrev read_number : Bytes → Option ℕ
read_number (n ∷ []) = some n
read_number _ = none

abbrev first_field : List (String × ℕ) → ℕ
first_field [] = 0
first_field ((_, n) ∷ fs) = n

pub gen_bounds : (n lo hi : ℕ) → lo < hi → (lo ≤ lo) × (lo < hi)
gen_bounds n lo hi h = (omega arith, h)

abbrev pub plain_host : Host ℕ
plain_host = record {
  buf = plain_buf;
  read_granted = no_writer;
  write_granted = no_guard;
  read_free = refl;
  write_free = refl;
  write_excluded = λ m l. refl;
  read_excluded = λ l. refl;
  read_queued = λ l. refl;
  read_shared = λ l h. h;
  send_ok = λ n. true;
  bind_ok = λ p. true;
  gen_range = λ n lo hi. lo;
  gen_range_bounds = gen_bounds;
  next_key = first_key;
  from_str = read_number;
  index = λ v k. v;
  get = λ v k. some v;
  as_u64 = λ v. some v;
  object = first_field;
  number = λ n. n;
  string = λ s. 0;
  to_string = λ n. some (n ∷ []);
  status_to_string = λ m. some (m.code ∷ m.status ∷ []);
  registration_from_str = λ s. some (record { code = 100; uid = s });
  uid_from_str = λ s. some (record { code = 301; uid = s });
}

abbrev pub plain_json : Json ℕ
plain_json = record {
  null = 0;
  boolean = λ b. 0;
  array = length;
  to_rfc3339 = λ t. t ∷ [];
  to_uppercase = λ s. map to_upper s;
  to_uppercase_ascii = λ s a. refl;
}

abbrev pub camera : CameraConnection
camera = record (Camera.new (109 ∷ []) 7 (7, 6123) (1, 1, 1)) { tcp_conn = some 3 }

abbrev pub world : World
world = record {
  manager = record { cameras = (7, camera) ∷ []; config = Config.default };
  clock = 5;
  sends = 0;
  draws = 0;
  out = [];
}

pub delivers : Delivers plain_host
delivers n = refl
