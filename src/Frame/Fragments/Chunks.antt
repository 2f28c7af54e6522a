-- ===== src/Frame/Fragments/Chunks.antt =====
-- The chunks that `encode_fragment` of desktop/protocol/src/frame.rs cuts, and how many there are.
use mathlib.Core.List.{flatten}
use bit_drive.Prelude.{
  ℕ, zero, suc, ◌+◌, ◌-◌, ◌/◌, ◌≤◌, ◌<◌, ◌≡◌, refl, List, [], ◌∷◌, length, drop, take-append-drop,
  length-drop, arith,
}
use bit_drive.Frame.Fragments.{chunks, chunks_from}

-- `size` bytes less are one chunk less.
ceil_step :
    (len size : ℕ)
    → 0 < len
    → 0 < size
    → (len + size - 1) / size ≡ suc ((len - size + size - 1) / size)
ceil_step len size h k = grind arith

ceil_zero : (size : ℕ) → 0 < size → (0 + size - 1) / size ≡ 0
ceil_zero size k = grind arith

flatten-chunks_from :
    (fuel size : ℕ) (payload : List ℕ)
    → length payload ≤ fuel
    → 0 < size
    → flatten (chunks_from fuel size payload) ≡ payload
unfolding chunks_from flatten
flatten-chunks_from zero size [] h k = refl
flatten-chunks_from zero size (b ∷ bs) h k = absurd (omega arith)
flatten-chunks_from (suc fuel) size [] h k = refl
flatten-chunks_from (suc fuel) size (b ∷ bs) h k =
    rw
      (flatten-chunks_from fuel size (drop size (b ∷ bs)) (omega (arith, length-drop size (b ∷ bs)))
        k)
      (take-append-drop size (b ∷ bs))

length-chunks_from :
    (fuel size : ℕ) (payload : List ℕ)
    → length payload ≤ fuel
    → 0 < size
    → length (chunks_from fuel size payload) ≡ (length payload + size - 1) / size
unfolding chunks_from flatten
length-chunks_from zero size [] h k = omega (arith, ceil_zero size k)
length-chunks_from zero size (b ∷ bs) h k = absurd (omega arith)
length-chunks_from (suc fuel) size [] h k = omega (arith, ceil_zero size k)
length-chunks_from (suc fuel) size (b ∷ bs) h k =
    let shorter = length-drop size (b ∷ bs) in
    rw (
      length-chunks_from fuel size (drop size (b ∷ bs)) (omega (arith, shorter)) k,
      shorter,
      ceil_step (length (b ∷ bs)) size (omega arith) k,
    )

-- The chunks, one after the other, are the payload.
pub flatten-chunks :
    (size : ℕ) (payload : List ℕ) → 0 < size → flatten (chunks size payload) ≡ payload
unfolding chunks
flatten-chunks size payload k = flatten-chunks_from (length payload) size payload (omega arith) k

-- There are as many chunks as `total_fragments` says.
pub length-chunks :
    (size : ℕ) (payload : List ℕ)
    → 0 < size
    → length (chunks size payload) ≡ (length payload + size - 1) / size
unfolding chunks
length-chunks size payload k = length-chunks_from (length payload) size payload (omega arith) k

-- A payload that is larger than a chunk has two chunks at least.
pub two_chunks : (len size : ℕ) → 0 < size → size < len → 2 ≤ (len + size - 1) / size
two_chunks len size k h = grind arith
