-- ===== src/Protocol/Header.antt =====
-- ProtocolHeader of src/protocol/binary.rs. A header's words are numbers; `InRange` gives the
-- ranges of their Rust types. `fwd_id` is a list of eight bytes.
pub mod Layout
pub mod RoundTrip
use a9_v.Prelude.{
  ℕ, ◌*◌, ◌%◌, ◌^◌, ◌<◌, ◌≡◌, List, [], ◌∷◌, ◌++◌, Option, none, some, length, replicate, ltb,
  if◌then◌else◌,
}
use a9_v.Wire.{Bytes, IsBytes, Buf}

pub record ProtocolHeader : Type 0 where
  pub length : ℕ
  pub cmd : ℕ
  pub msg_flag : ℕ
  pub deal_fl : ℕ
  pub fwd_id : Bytes
  pub pkg_id : ℕ

pub record InRange (h : ProtocolHeader) : Type 0 where
  pub length_u32 : h.length < 2 ^ 32
  pub cmd_u16 : h.cmd < 2 ^ 16
  pub msg_flag_u8 : h.msg_flag < 256
  pub deal_fl_u8 : h.deal_fl < 256
  pub fwd_id_len : length h.fwd_id ≡ 8
  pub fwd_id_u8 : IsBytes h.fwd_id
  pub pkg_id_u32 : h.pkg_id < 2 ^ 32

-- What `from_bytes` does: its value, its error, or a panic of the buffer.
pub data Parsed {ℓ} (A : Type ℓ) : Type ℓ where
  ok : A → Parsed A
  err : Parsed A
  panic : Parsed A

infixl 5 ◌>>=◌
abbrev pub ◌>>=◌ {ℓ κ} : {A : Type ℓ} {B : Type κ} → Parsed A → (A → Parsed B) → Parsed B
ok a >>= f = f a
err >>= f = err
panic >>= f = panic

abbrev pub or_panic {ℓ} : {A : Type ℓ} → Option A → Parsed A
or_panic none = panic
or_panic (some a) = ok a

-- `ProtocolHeader::SIZE`
abbrev pub header_size : ℕ
header_size = 20

read_fields : Buf → Bytes → Parsed (ProtocolHeader × Bytes)
read_fields buf d0 = do
  (len, d1) ← or_panic (buf.get_u32_le d0)
  (c, d2) ← or_panic (buf.get_u16_le d1)
  (flag, d3) ← or_panic (buf.get_u8 d2)
  (deal, d4) ← or_panic (buf.get_u8 d3)
  (fwd, d5) ← or_panic (buf.copy_to_slice 8 d4)
  (pkg, d6) ← or_panic (buf.get_u32_le d5)
  ok (
    record { length = len; cmd = c; msg_flag = flag; deal_fl = deal; fwd_id = fwd; pkg_id = pkg },
    d6,
  )

pub from_bytes : Buf → Bytes → Parsed (ProtocolHeader × Bytes)
unfolding read_fields
from_bytes buf d = if ltb (length d) header_size then err else read_fields buf d

unfoldable pub to_bytes : Buf → ProtocolHeader → Bytes
to_bytes buf h =
    let b1 = buf.put_u32_le [] h.length in
    let b2 = buf.put_u16_le b1 h.cmd in
    let b3 = buf.put_u8 b2 h.msg_flag in
    let b4 = buf.put_u8 b3 h.deal_fl in
    let b5 = buf.put_slice b4 h.fwd_id in buf.put_u32_le b5 h.pkg_id

-- `ProtocolHeader::new`
unfoldable pub new : ℕ → ℕ → ℕ → ℕ → ProtocolHeader
new cmd len msg_flag pkg_id = record {
  length = len;
  cmd = cmd;
  msg_flag = msg_flag;
  deal_fl = 0;
  fwd_id = replicate 8 0;
  pkg_id = pkg_id;
}

-- The lengths are `usize`, cast by `as u32`.
unfoldable pub json : ℕ → ℕ → ProtocolHeader
unfolding new
json pkg_id json_length = new 0 (json_length % 2 ^ 32) 255 pkg_id

unfoldable pub binary : ℕ → ℕ → ℕ → ProtocolHeader
unfolding new
binary cmd pkg_id data_length = new cmd (data_length % 2 ^ 32) 255 pkg_id

unfoldable pub video_frame : ℕ → ℕ → ℕ → ProtocolHeader
unfolding new
video_frame pkg_id frame_length msg_flag = new 1 (frame_length % 2 ^ 32) msg_flag pkg_id

unfoldable pub audio_frame : ℕ → ℕ → ProtocolHeader
unfolding new
audio_frame pkg_id audio_length = new 4 (audio_length % 2 ^ 32) 255 pkg_id

unfoldable pub heartbeat : ℕ → ProtocolHeader
unfolding new
heartbeat pkg_id = new 100 20 255 pkg_id

unfoldable pub retransmission : ℕ → ℕ → ProtocolHeader
unfolding new
retransmission pkg_id data_length = new 245 (data_length % 2 ^ 32) 255 pkg_id

-- `pkg_count * 4` on `u32`, in a release build, where it wraps.
unfoldable pub retransmission_confirm : ℕ → ProtocolHeader
unfolding new
retransmission_confirm pkg_count = new 245 (pkg_count * 4 % 2 ^ 32) 255 0
