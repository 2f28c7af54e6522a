-- ===== src/Pb.antt =====
-- Message types of the generated module desktop/protocol/src/pb/bpl.protocol.rs, as far as the
-- modelled code reads them. A wrapper message with one field (`ChannelId`, `SequenceNumber`, ...)
-- is that field, and an `i32` enumeration field is its number.
pub mod FrameType
pub mod Header
pub mod Channel
pub mod Service
pub mod Auth
