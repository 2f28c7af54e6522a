-- ===== src/Frame/Layout.antt =====
-- Where the fields of desktop/protocol/src/frame.rs stand in the bytes of a frame.
use bit_drive.Prelude.{ℕ, ◌+◌, ◌<◌, ◌≡◌, refl, List, ◌++◌, length, take, drop, get_or, arith}
use bit_drive.Prelude.Words.{IsU32, IsU64, u32_le, u32_at, u64_at, u32_join}
use bit_drive.Frame.{header_prefix}

-- A frame's bytes: the prefix, its CRC, and the payload with the tag as `body`.
abbrev pub packet : (magic version type flags channel sequence size crc : ℕ) → List ℕ → List ℕ
packet magic version type flags channel sequence size crc body =
    header_prefix magic version type flags channel sequence size ++ (u32_le crc ++ body)

-- What reading the fields of a buffer gives.
pub record Reads (buf : List ℕ) (magic version type flags channel sequence size crc : ℕ)
    (body : List ℕ) : Type 0 where
  pub length_eq : length buf ≡ 30 + length body
  pub magic_eq : u32_at buf 0 ≡ magic
  pub version_eq : u32_at buf 4 ≡ version
  pub type_eq : get_or buf 8 0 ≡ type
  pub flags_eq : get_or buf 9 0 ≡ flags
  pub channel_eq : u32_at buf 10 ≡ channel
  pub sequence_eq : u64_at buf 14 ≡ sequence
  pub size_eq : u32_at buf 22 ≡ size
  pub crc_eq : u32_at buf 26 ≡ crc
  pub body_eq : drop 30 buf ≡ body

module _ (magic version type flags channel sequence size crc : ℕ) (body : List ℕ) where
  -- The CRC is taken over the prefix.
  pub packet-prefix :
      take 26 (take 30 (packet magic version type flags channel sequence size crc body))
      ≡ header_prefix magic version type flags channel sequence size
  packet-prefix = refl

  -- What follows the bytes of a frame follows its body.
  pub packet-append :
      (rest : List ℕ)
      → packet magic version type flags channel sequence size crc body ++ rest
        ≡ packet magic version type flags channel sequence size crc (body ++ rest)
  packet-append rest = refl

  -- Every field is read where it was put.
  pub packet-Reads :
      IsU32 magic
      → IsU32 version
      → type < 256
      → IsU32 channel
      → IsU64 sequence
      → IsU32 size
      → IsU32 crc
      → Reads
          (packet magic version type flags channel sequence size crc body)
          magic
          version
          type
          flags
          channel
          sequence
          size
          crc
          body
  packet-Reads hm hv ht hc hs hz hr = record {
    length_eq = omega arith;
    magic_eq = u32_join magic hm;
    version_eq = u32_join version hv;
    type_eq = omega arith;
    flags_eq = refl;
    channel_eq = u32_join channel hc;
    sequence_eq = omega arith;
    size_eq = u32_join size hz;
    crc_eq = u32_join crc hr;
    body_eq = refl;
  }
