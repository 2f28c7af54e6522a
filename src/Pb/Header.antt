-- ===== src/Pb/Header.antt =====
-- `FrameFlags` and `FrameHeader`.
use bit_drive.Prelude.{ℕ, Bool, false, Option}

pub record FrameFlags : Type 0 where
  pub is_fragment : Bool
  pub is_last_fragment : Bool
  pub encrypted : Bool
  pub authenticated : Bool
  pub compressed : Bool
  pub priority : Bool
  pub ack_required : Bool
  pub reset_sequence : Bool
  pub retransmission : Bool

-- `FrameFlags::default()`
abbrev pub default_flags : FrameFlags
default_flags = record {
  is_fragment = false;
  is_last_fragment = false;
  encrypted = false;
  authenticated = false;
  compressed = false;
  priority = false;
  ack_required = false;
  reset_sequence = false;
  retransmission = false;
}

pub record FrameHeader : Type 0 where
  pub magic : ℕ
  pub version : ℕ
  pub type : ℕ
  pub flags : Option FrameFlags
  pub channel_id : Option ℕ
  pub sequence : Option ℕ
  pub payload_length : ℕ
  pub header_crc : ℕ
