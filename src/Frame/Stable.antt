-- ===== src/Frame/Stable.antt =====
-- Bytes that come in later do not change what `decode` of desktop/protocol/src/frame.rs makes of
-- the bytes that are there.
use bit_drive.Prelude.{
  ℕ, ◌+◌, ◌≤◌, ◌≡◌, ◌≢◌, ap, ◌∙◌, Option, none, List, ◌++◌, length, take, drop, get_or,
  get_or-append, take-append, drop-append, length-append, length-drop, arith, Bool-cases,
  Option-cases, inl, inr, ltb, not_ltb→le, le→not_ltb, ◌==◌,
}
use bit_drive.Prelude.Words.{u32_at, u64_at}
use bit_drive.Errors.{Result, ok}
use bit_drive.Pb.FrameType.{FrameType, try_from}
use bit_drive.Frame.{
  Frame, FrameCodec, decode, decode_sized, accept, calculate_header_crc_raw, magic_number,
}

-- A result of `decode`, with more bytes behind those that it left.
abbrev pub followed_by :
    FrameCodec × List ℕ × Result (Option Frame)
    → List ℕ
    → FrameCodec × List ℕ × Result (Option Frame)
followed_by d more = (d.0, d.1 ++ more, d.2)

module _ (buf more : List ℕ) where
  u32_at-append : (off : ℕ) → off + 4 ≤ length buf → u32_at (buf ++ more) off ≡ u32_at buf off
  u32_at-append off h = omega (
    arith,
    get_or-append buf more off 0,
    get_or-append buf more (off + 1) 0,
    get_or-append buf more (off + 2) 0,
    get_or-append buf more (off + 3) 0,
  )

  u64_at-append : (off : ℕ) → off + 8 ≤ length buf → u64_at (buf ++ more) off ≡ u64_at buf off
  u64_at-append off h =
      omega (arith, u32_at-append off (omega arith), u32_at-append (off + 4) (omega arith))

  slice-append :
      (m n : ℕ) → m + n ≤ length buf → take n (drop m (buf ++ more)) ≡ take n (drop m buf)
  slice-append m n h =
      ap (take n) (drop-append m buf more (omega arith))
      ∙ take-append n (drop m buf) more (omega (arith, length-drop m buf))

  crc_data-append : 46 ≤ length buf → take 26 (take 30 (buf ++ more)) ≡ take 26 (take 30 buf)
  crc_data-append h = rw (take-append 30 buf more (omega arith))

  accept-append :
      (crc32 : List ℕ → ℕ) (c : FrameCodec) (t : FrameType)
      → 46 ≤ length buf
      → 30 + u32_at buf 22 + 16 ≤ length buf
      → accept crc32 c (buf ++ more) t ≡ followed_by (accept crc32 c buf t) more
  unfolding accept
  accept-append crc32 c t h fits =
      rw
        (
          u32_at-append 22 (omega arith),
          u32_at-append 0 (omega arith),
          u32_at-append 4 (omega arith),
          u32_at-append 10 (omega arith),
          u32_at-append 26 (omega arith),
          u64_at-append 14 (omega arith),
          get_or-append buf more 9 0 (omega arith),
          slice-append 30 (u32_at buf 22) (omega arith),
          slice-append (30 + u32_at buf 22) 16 (omega arith),
          drop-append (30 + u32_at buf 22 + 16) buf more fits,
        )
        (elim (Bool-cases (ltb (u64_at buf 14) c.rx_sequence)) [
          | inl old ↦ rw old
          | inr new ↦ rw new
        ])

  decode_sized-append :
      (crc32 : List ℕ → ℕ) (c : FrameCodec) (t : FrameType)
      → 46 ≤ length buf
      → (decode_sized crc32 c buf t).2 ≢ ok none
      → decode_sized crc32 c (buf ++ more) t ≡ followed_by (decode_sized crc32 c buf t) more
  unfolding decode_sized calculate_header_crc_raw
  decode_sized-append crc32 c t h moves =
      rw (u32_at-append 22 (omega arith), u32_at-append 26 (omega arith), crc_data-append h)
        (elim (Bool-cases (ltb (length buf) (30 + u32_at buf 22 + 16))) [
          | inl short ↦ absurd (moves (rw short))
          | inr whole ↦
              let fits = not_ltb→le (length buf) (30 + u32_at buf 22 + 16) whole in
              let whole' =
                le→not_ltb (length (buf ++ more)) (30 + u32_at buf 22 + 16)
                  (omega (arith, length-append buf more)) in
              rw (whole, whole')
                (elim (Bool-cases (crc32 (take 26 (take 30 buf)) == u32_at buf 26)) [
                  | inl good ↦ rw good (accept-append crc32 c t h fits)
                  | inr bad ↦ rw bad
                ])
        ])

  -- Where `decode` does not ask for more bytes, more bytes in the buffer change nothing: it
  -- delivers or refuses the same, and they stay behind the bytes that it left.
  pub decode-append :
      (crc32 : List ℕ → ℕ) (c : FrameCodec)
      → (decode crc32 c buf).2 ≢ ok none
      → decode crc32 c (buf ++ more) ≡ followed_by (decode crc32 c buf) more
  unfolding decode
  decode-append crc32 c moves = elim (Bool-cases (ltb (length buf) 46)) [
    | inl short ↦ absurd (moves (rw short))
    | inr enough ↦
        let h = not_ltb→le (length buf) 46 enough in
        let enough' =
          le→not_ltb (length (buf ++ more)) 46 (omega (arith, length-append buf more)) in
        rw
          (enough, enough', u32_at-append 0 (omega arith), get_or-append buf more 8 0 (omega arith))
          (elim (Bool-cases (u32_at buf 0 == magic_number)) [
            | inr bad ↦ rw bad
            | inl good ↦ elim (Option-cases (try_from (get_or buf 8 0))) [
              | inl unknown ↦ rw (good, unknown, get_or-append buf more 8 0 (omega arith))
              | inr (t, known) ↦
                  rw (good, known)
                    (decode_sized-append crc32 c t h (λ e. moves (rw (enough, good, known) e)))
            ]
          ])
  ]
