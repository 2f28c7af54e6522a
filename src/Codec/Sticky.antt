-- ===== src/Codec/Sticky.antt =====
-- What follows an error of `decode` in desktop/protocol/src/codec.rs.
use bit_drive.Prelude.{
  ℕ, zero, suc, ◌≡◌, ◌≢◌, refl, sym, ap, ◌∙◌, Option, none, some, List, [], ◌∷◌, ◌++◌, length,
  arith, inl, inr, ◌⊎◌,
}
use bit_drive.Prelude.Words.{u64_at}
use bit_drive.Errors.{ProtocolError, Result, ok, err, panic, replay_detected}
use bit_drive.Frame.{Frame, FrameCodec, decode}
use bit_drive.Frame.Safety.{decode_left}
use bit_drive.Frame.Stable.{decode-append}
use bit_drive.Frame.Fragments.{reassemble_fragment}
use bit_drive.Codec.{
  ProtocolCodec, after_reassembly, after_decode, decode_loop, decode_data, finish,
}
use bit_drive.Codec.Loop.{Go}
use bit_drive.Codec.Stream.{finish_inversion}

-- Reassembly returns no error.
reassemble_no_err :
    (c : FrameCodec) (f : Frame) (e : ProtocolError) → (reassemble_fragment c f).1 ≢ err e
unfolding reassemble_fragment
reassemble_no_err c f e h = ground arith

-- An error comes from `FrameCodec::decode` in this turn, or from a later turn.
abbrev Raised :
    Go → FrameCodec → List ℕ → ProtocolError → FrameCodec × List ℕ × Result (Option Frame) → Type 0
Raised go c1 rest e d =
    (d ≡ (c1, rest, err e))
    ⊎ ((c : FrameCodec) × (b : List ℕ) × (fs : List Frame) × (go c b fs ≡ some (c1, rest, err e)))

module _ (go : Go) (frames : List Frame) {c1 : FrameCodec} {rest : List ℕ} {e : ProtocolError} where
  Raised-later :
      (d : FrameCodec × List ℕ × Result (Option Frame)) (b : List ℕ) (f : Frame) (c : FrameCodec)
      (r : FrameCodec × Result (Option Frame))
      → reassemble_fragment c f ≡ r
      → after_reassembly go b frames r ≡ some (c1, rest, err e)
      → Raised go c1 rest e d
  Raised-later d b f c (c', err x) q h = absurd (reassemble_no_err c f x (ap (λ r. r.1) q))
  Raised-later d b f c (c', panic) q h = absurd (cc)
  Raised-later d b f c (c', ok none) q h = inr (c', b, frames, h)
  Raised-later d b f c (c', ok (some whole)) q h = inr (c', b, frames ++ whole ∷ [], h)

  raised :
      (d : FrameCodec × List ℕ × Result (Option Frame))
      → after_decode go frames d ≡ some (c1, rest, err e)
      → Raised go c1 rest e d
  raised (c, b, err x) h = inl (cc)
  raised (c, b, panic) h = absurd (cc)
  raised (c, b, ok none) h = absurd (cc)
  raised (c, b, ok (some f)) h =
      Raised-later (c, b, ok (some f)) b f c (reassemble_fragment c f) refl h

module _ (crc32 : List ℕ → ℕ) {c1 : FrameCodec} {rest : List ℕ} {e : ProtocolError}
    (no_replay : (s : ℕ) → e ≢ replay_detected s) where
  -- The error of one call stands at the front of the buffer that it leaves.
  decode_stuck :
      (c : FrameCodec) (buf : List ℕ)
      → decode crc32 c buf ≡ (c1, rest, err e)
      → decode crc32 c1 rest ≡ (c1, rest, err e)
  decode_stuck c buf q =
      let (same, left) = decode_left crc32 c buf (λ f k. cc) in
      elim left [
        | inl whole ↦
            let c_eq : c ≡ c1 = sym same ∙ ap (λ d. d.0) q in
            let buf_eq : buf ≡ rest = sym whole ∙ ap (λ d. d.1) q in
            (λ i. decode crc32 (sym c_eq i) (sym buf_eq i)) ∙ q
        | inr (gone, replay) ↦ absurd (no_replay (u64_at buf 14) (cc))
      ]

  decode_loop_stuck :
      (n : ℕ) (c : FrameCodec) (buf : List ℕ) (frames : List Frame)
      → decode_loop crc32 n c buf frames ≡ some (c1, rest, err e)
      → decode crc32 c1 rest ≡ (c1, rest, err e)
  unfolding decode_loop
  decode_loop_stuck zero c buf frames h = absurd (cc)
  decode_loop_stuck (suc n) c buf frames h =
      elim (raised (decode_loop crc32 n) frames (decode crc32 c buf) h) [
        | inl q ↦ decode_stuck c buf q
        | inr (c', b, fs, later) ↦ decode_loop_stuck n c' b fs later
      ]

-- After an error that is no replay the codec is stuck: whatever comes in next, the next call of
-- `decode` gives the same error again, and the bytes pile up in the buffer.
pub decode_data_stuck :
    (crc32 : List ℕ → ℕ) (p p1 : ProtocolCodec) (a b : List ℕ) (e : ProtocolError)
    → ((s : ℕ) → e ≢ replay_detected s)
    → decode_data crc32 p a ≡ some (p1, err e)
    → decode_data crc32 p1 b ≡ some (record p1 { rx_buffer = p1.rx_buffer ++ b }, err e)
unfolding decode_data decode_loop
decode_data_stuck crc32 p p1 a b e no_replay h =
    let stuck =
      decode_loop_stuck crc32 no_replay (suc (length (p.rx_buffer ++ a))) p.frame_codec
        (p.rx_buffer ++ a) [] (finish_inversion _ h) in
    let again = decode-append p1.rx_buffer b crc32 p1.frame_codec (λ q. cc) in
    ap (λ d. finish (after_decode (decode_loop crc32 (length (p1.rx_buffer ++ b))) [] d))
      (again ∙ ap (λ d. (d.0, d.1 ++ b, d.2)) stuck)
