-- ===== src/Tests.antt =====
-- Examples: the theorems at concrete inputs, and the data that they share.
pub mod Wire
pub mod Receive
pub mod Channels
pub mod Services
pub mod Keys
pub mod Sessions
pub mod Managers
pub mod Dispatch
pub mod Desktop
pub mod Storage
pub mod Streams
use bit_drive.Prelude.{refl, ℕ, ◌+◌, ◌%◌, ◌^◌, true, some, List, [], ◌∷◌, length, arith}
use bit_drive.Prelude.Words.{IsU32, u32}
use bit_drive.Pb.FrameType.{data_frame, as_i32}
use bit_drive.Pb.Header.{FrameFlags, default_flags}
use bit_drive.Frame.{Frame, FrameCodec, magic_number}
use bit_drive.Frame.RoundTrip.{IsSendable}

-- A checksum in place of CRC-32.
abbrev pub byte_sum : List ℕ → ℕ
byte_sum [] = 0
byte_sum (b ∷ bs) = u32 (b + byte_sum bs)

pub byte_sum-IsU32 : (bytes : List ℕ) → IsU32 (byte_sum bytes)
byte_sum-IsU32 [] = omega arith
byte_sum-IsU32 (b ∷ bs) = omega arith

abbrev pub codec_at : ℕ → FrameCodec
codec_at sequence = record {
  max_payload_size = 4;
  rx_sequence = sequence;
  tx_sequence = sequence;
  rx_fragments = [];
  tx_fragments = [];
}

abbrev pub urgent_flags : FrameFlags
urgent_flags = record default_flags { priority = true; encrypted = true }

-- Two bytes on channel 3, with a tag of zeros.
abbrev pub hello : Frame
hello = record {
  header = record {
    magic = magic_number;
    version = 0x00010000;
    type = 0;
    flags = some urgent_flags;
    channel_id = some 3;
    sequence = some 0;
    payload_length = 2;
    header_crc = 0;
  };
  payload = 104 ∷ 105 ∷ [];
  auth_tag = 0 ∷ 0 ∷ 0 ∷ 0 ∷ 0 ∷ 0 ∷ 0 ∷ 0 ∷ 0 ∷ 0 ∷ 0 ∷ 0 ∷ 0 ∷ 0 ∷ 0 ∷ 0 ∷ [];
}

pub hello-IsSendable : IsSendable hello data_frame urgent_flags 3
unfolding as_i32
hello-IsSendable = record {
  magic_eq = refl;
  version_u32 = omega arith;
  type_eq = refl;
  flags_eq = refl;
  channel_eq = refl;
  channel_u32 = omega arith;
  payload_u32 = omega arith;
  tag_length = refl;
}
