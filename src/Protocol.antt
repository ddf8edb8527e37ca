-- ===== src/Protocol.antt =====
-- src/protocol: the binary header and the retransmission list.
pub mod Header
pub mod Confirm
pub mod Messages
