-- ===== src/Tests/Headers.antt =====
-- Messages of src/protocol/binary.rs, written and read by a simple buffer.
use a9_v.Prelude.{◌<◌, ◌≡◌, ◌≢◌, ◌↔◌, refl, subst, [], ◌∷◌, ◌++◌, length, replicate, arith}
use a9_v.Wire.{Bytes, IsBytes}
use a9_v.Protocol.Header.{ProtocolHeader, InRange, ok, err, panic, from_bytes, to_bytes}
use a9_v.Protocol.Header.RoundTrip.{from_bytes-to_bytes, to_bytes-from_bytes, from_bytes_total}
use a9_v.Protocol.Confirm.{RetransmissionConfirm, from_bytes-to_bytes_ids, from_bytes_cases, AreU32}
use a9_v.Protocol.Confirm
use a9_v.Tests.Setup.{plain_buf}

abbrev pub heartbeat : ProtocolHeader
heartbeat = record {
  length = 20;
  cmd = 100;
  msg_flag = 255;
  deal_fl = 0;
  fwd_id = replicate 8 0;
  pkg_id = 70000;
}

pub heartbeat-InRange : InRange heartbeat
heartbeat-InRange = record {
  length_u32 = omega arith;
  cmd_u16 = omega arith;
  msg_flag_u8 = omega arith;
  deal_fl_u8 = omega arith;
  fwd_id_len = refl;
  fwd_id_u8 = omega arith;
  pkg_id_u32 = omega arith;
}

from_bytes-to_bytes_example :
    from_bytes plain_buf (to_bytes plain_buf heartbeat ++ 9 ∷ 8 ∷ []) ≡ ok (heartbeat, 9 ∷ 8 ∷ [])
from_bytes-to_bytes_example = from_bytes-to_bytes plain_buf heartbeat (9 ∷ 8 ∷ []) heartbeat-InRange

-- The bytes of the heartbeat and a payload of two.
abbrev datagram : Bytes
datagram =
    20 ∷ 0 ∷ 0 ∷ 0 ∷ 100 ∷ 0 ∷ 255 ∷ 0 ∷ 0 ∷ 0 ∷ 0 ∷ 0 ∷ 0 ∷ 0 ∷ 0 ∷ 0 ∷ 112 ∷ 17 ∷ 1 ∷ 0 ∷ 9 ∷ 8
    ∷ []

to_bytes-heartbeat : to_bytes plain_buf heartbeat ++ 9 ∷ 8 ∷ [] ≡ datagram
unfolding to_bytes
to_bytes-heartbeat = refl

datagram-IsBytes : IsBytes datagram
datagram-IsBytes = omega arith

from_bytes-datagram : from_bytes plain_buf datagram ≡ ok (heartbeat, 9 ∷ 8 ∷ [])
from_bytes-datagram =
    subst (λ d. from_bytes plain_buf d ≡ ok (heartbeat, 9 ∷ 8 ∷ [])) to_bytes-heartbeat
      (from_bytes-to_bytes plain_buf heartbeat (9 ∷ 8 ∷ []) heartbeat-InRange)

to_bytes-from_bytes_example :
    InRange heartbeat × (to_bytes plain_buf heartbeat ++ 9 ∷ 8 ∷ [] ≡ datagram)
to_bytes-from_bytes_example =
    to_bytes-from_bytes plain_buf datagram heartbeat (9 ∷ 8 ∷ []) datagram-IsBytes
      from_bytes-datagram

from_bytes_total_example :
    ((from_bytes plain_buf datagram ≡ err) ↔ (length datagram < 20))
    × (from_bytes plain_buf datagram ≢ panic)
from_bytes_total_example = from_bytes_total plain_buf datagram

abbrev ids : RetransmissionConfirm
ids = record { received_packets = 5 ∷ 70000 ∷ [] }

ids-AreU32 : AreU32 ids.received_packets
ids-AreU32 = omega arith

from_bytes-to_bytes_ids_example :
    Confirm.from_bytes plain_buf (Confirm.to_bytes plain_buf ids) ≡ ok ids
from_bytes-to_bytes_ids_example = from_bytes-to_bytes_ids plain_buf ids ids-AreU32

abbrev four_bytes : Bytes
four_bytes = 1 ∷ 2 ∷ 3 ∷ 4 ∷ []

four_bytes-IsBytes : IsBytes four_bytes
four_bytes-IsBytes = omega arith
