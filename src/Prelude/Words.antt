-- ===== src/Prelude/Words.antt =====
-- Machine words: widths, and the little-endian byte strings of `bytes::BufMut` and `from_le_bytes`.
use bit_drive.Prelude.{ℕ, ◌+◌, ◌*◌, ◌/◌, ◌%◌, ◌^◌, ◌<◌, ◌-◌, min, ◌≡◌, List, [], ◌∷◌, get_or, arith}

abbrev pub IsByte : ℕ → Type 0
IsByte b = b < 256

abbrev pub IsU32 : ℕ → Type 0
IsU32 v = v < 2 ^ 32

abbrev pub IsU64 : ℕ → Type 0
IsU64 v = v < 2 ^ 64

-- `x as u8`, `x as u32`, and the wrapping arithmetic of the release profile.
abbrev pub u8 : ℕ → ℕ
u8 v = v % 256

abbrev pub u32 : ℕ → ℕ
u32 v = v % 2 ^ 32

abbrev pub u64 : ℕ → ℕ
u64 v = v % 2 ^ 64

-- `u32::saturating_add`
abbrev pub saturating_add : ℕ → ℕ → ℕ
saturating_add a b = min (a + b) (2 ^ 32 - 1)

-- `put_u32_le`
abbrev pub u32_le : ℕ → List ℕ
u32_le v = v % 256 ∷ v / 2 ^ 8 % 256 ∷ v / 2 ^ 16 % 256 ∷ v / 2 ^ 24 % 256 ∷ []

-- Both halves of a `u64`, low one first: `put_u64_le` and `u64::to_le_bytes`.
abbrev pub u64_le : ℕ → List ℕ
u64_le v =
    v % 256
    ∷ v / 2 ^ 8 % 256
    ∷ v / 2 ^ 16 % 256
    ∷ v / 2 ^ 24 % 256
    ∷ v / 2 ^ 32 % 256
    ∷ v / 2 ^ 40 % 256
    ∷ v / 2 ^ 48 % 256
    ∷ v / 2 ^ 56 % 256
    ∷ []

-- The word whose bytes stand from `off` on, as `from_le_bytes` reads it.
abbrev pub u32_at : List ℕ → ℕ → ℕ
u32_at buf off =
    get_or buf off 0
    + 2 ^ 8 * get_or buf (off + 1) 0
    + 2 ^ 16 * get_or buf (off + 2) 0
    + 2 ^ 24 * get_or buf (off + 3) 0

abbrev pub u64_at : List ℕ → ℕ → ℕ
u64_at buf off = u32_at buf off + 2 ^ 32 * u32_at buf (off + 4)

pub u32_join :
    (v : ℕ)
    → IsU32 v
    → v % 256
        + 2 ^ 8 * (v / 2 ^ 8 % 256)
        + 2 ^ 16 * (v / 2 ^ 16 % 256)
        + 2 ^ 24 * (v / 2 ^ 24 % 256)
      ≡ v
u32_join v h = omega arith

-- A word that is written reads back.
pub u32_at-u32_le : (v : ℕ) → IsU32 v → u32_at (u32_le v) 0 ≡ v
u32_at-u32_le v h = omega arith

pub u64_at-u64_le : (v : ℕ) → IsU64 v → u64_at (u64_le v) 0 ≡ v
u64_at-u64_le v h = omega arith
