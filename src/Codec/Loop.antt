-- ===== src/Codec/Loop.antt =====
-- The receive loop of desktop/protocol/src/codec.rs: it ends, and its fuel does not matter.
use bit_drive.Prelude.{
  ℕ, zero, suc, ◌+◌, ◌≤◌, ◌<◌, ◌≡◌, ◌≢◌, refl, ap, Option, none, some, List, [], ◌∷◌, ◌++◌, length,
  length-append, arith, take, ◌⊎◌, inl, inr,
}
use bit_drive.Errors.{Result, ok, err, panic}
use bit_drive.Frame.{Frame, FrameCodec, decode}
use bit_drive.Frame.Safety.{decode-IsSound}
use bit_drive.Frame.Fragments.{reassemble_fragment}
use bit_drive.Codec.{Outcome, after_reassembly, after_decode, decode_loop}

-- A frame takes 46 bytes at least.
pub decode_shrinks :
    (crc32 : List ℕ → ℕ) (c : FrameCodec) (buf : List ℕ) {f : Frame}
    → (decode crc32 c buf).2 ≡ ok (some f)
    → length (decode crc32 c buf).1 + 46 ≤ length buf
decode_shrinks crc32 c buf {f} h =
    let s = decode-IsSound crc32 c buf h in
    let rest = (decode crc32 c buf).1 in
    omega (
      arith,
      ap length s.framing,
      length-append (take 30 buf) (f.payload ++ (f.auth_tag ++ rest)),
      length-append f.payload (f.auth_tag ++ rest),
      length-append f.auth_tag rest,
      s.header_length,
      s.tag_length,
    )

abbrev pub Go : Type 0
Go = FrameCodec → List ℕ → List Frame → Outcome

-- Two ways to go on that agree on the buffer that is left agree.
after_reassembly-congr :
    (go go' : Go) (buf : List ℕ) (frames : List Frame) (r : FrameCodec × Result (Option Frame))
    → ((c : FrameCodec) (fs : List Frame) → go c buf fs ≡ go' c buf fs)
    → after_reassembly go buf frames r ≡ after_reassembly go' buf frames r
after_reassembly-congr go go' buf frames (c, err e) h = refl
after_reassembly-congr go go' buf frames (c, panic) h = refl
after_reassembly-congr go go' buf frames (c, ok none) h = h c frames
after_reassembly-congr go go' buf frames (c, ok (some f)) h = h c (frames ++ f ∷ [])

pub after_decode-congr :
    (go go' : Go) (frames : List Frame) (d : FrameCodec × List ℕ × Result (Option Frame))
    → ((f : Frame)
        → d.2 ≡ ok (some f)
        → (c : FrameCodec) (fs : List Frame) → go c d.1 fs ≡ go' c d.1 fs)
    → after_decode go frames d ≡ after_decode go' frames d
after_decode-congr go go' frames (c, buf, err e) h = refl
after_decode-congr go go' frames (c, buf, panic) h = refl
after_decode-congr go go' frames (c, buf, ok none) h = refl
after_decode-congr go go' frames (c, buf, ok (some f)) h =
    after_reassembly-congr go go' buf frames (reassemble_fragment c f) (h f refl)

after_reassembly_total :
    (go : Go) (buf : List ℕ) (frames : List Frame) (r : FrameCodec × Result (Option Frame))
    → ((c : FrameCodec) (fs : List Frame) → go c buf fs ≢ none)
    → after_reassembly go buf frames r ≢ none
after_reassembly_total go buf frames (c, err e) h = λ q. cc
after_reassembly_total go buf frames (c, panic) h = λ q. cc
after_reassembly_total go buf frames (c, ok none) h = h c frames
after_reassembly_total go buf frames (c, ok (some f)) h = h c (frames ++ f ∷ [])

after_decode_total :
    (go : Go) (frames : List Frame) (d : FrameCodec × List ℕ × Result (Option Frame))
    → ((f : Frame) → d.2 ≡ ok (some f) → (c : FrameCodec) (fs : List Frame) → go c d.1 fs ≢ none)
    → after_decode go frames d ≢ none
after_decode_total go frames (c, buf, err e) h = λ q. cc
after_decode_total go frames (c, buf, panic) h = λ q. cc
after_decode_total go frames (c, buf, ok none) h = λ q. cc
after_decode_total go frames (c, buf, ok (some f)) h =
    after_reassembly_total go buf frames (reassemble_fragment c f) (h f refl)

module _ (crc32 : List ℕ → ℕ) where
  -- Any fuel above the size of the buffer gives the same.
  pub decode_loop-fuel :
      (m n : ℕ) (c : FrameCodec) (buf : List ℕ) (frames : List Frame)
      → length buf < m
      → length buf < n
      → decode_loop crc32 m c buf frames ≡ decode_loop crc32 n c buf frames
  unfolding decode_loop
  decode_loop-fuel zero n c buf frames h k = absurd (omega arith)
  decode_loop-fuel (suc m) zero c buf frames h k = absurd (omega arith)
  decode_loop-fuel (suc m) (suc n) c buf frames h k =
      after_decode-congr (decode_loop crc32 m) (decode_loop crc32 n) frames (decode crc32 c buf)
        λ f e c' fs.
          let shorter = decode_shrinks crc32 c buf e in
          decode_loop-fuel m n c' (decode crc32 c buf).1 fs (omega (arith, shorter))
            (omega (arith, shorter))

  -- Fuel above the size of the buffer does not run out.
  pub decode_loop_total :
      (n : ℕ) (c : FrameCodec) (buf : List ℕ) (frames : List Frame)
      → length buf < n
      → decode_loop crc32 n c buf frames ≢ none
  unfolding decode_loop
  decode_loop_total zero c buf frames h = absurd (omega arith)
  decode_loop_total (suc n) c buf frames h =
      after_decode_total (decode_loop crc32 n) frames (decode crc32 c buf) λ f e c' fs.
        decode_loop_total n c' (decode crc32 c buf).1 fs
          (omega (arith, decode_shrinks crc32 c buf e))

-- How a turn that leads to a success went: it was the last one, or it went on after a reassembly.
pub record Last (frames : List Frame) (d : FrameCodec × List ℕ × Result (Option Frame))
    (c1 : FrameCodec) (rest : List ℕ) (fs1 : List Frame) : Type 0 where
  pub waits : d.2 ≡ ok none
  pub codec_eq : d.0 ≡ c1
  pub rest_eq : d.1 ≡ rest
  pub frames_eq : frames ≡ fs1

pub record GoesOn (go : Go) (frames : List Frame) (d : FrameCodec × List ℕ × Result (Option Frame))
    (c1 : FrameCodec) (rest : List ℕ) (fs1 : List Frame) : Type 0 where
  pub frame : Frame
  pub codec : FrameCodec
  pub passed : List Frame
  pub delivers : d.2 ≡ ok (some frame)
  pub continues :
      (go' : Go) (b : List ℕ)
      → after_reassembly go' b frames (reassemble_fragment d.0 frame) ≡ go' codec b passed
  pub later : go codec d.1 passed ≡ some (c1, rest, ok fs1)

module _ (go : Go) (frames : List Frame) {c1 : FrameCodec} {rest : List ℕ} {fs1 : List Frame} where
  reassembly_inversion :
      (c : FrameCodec) (buf : List ℕ) (f : Frame) (r : FrameCodec × Result (Option Frame))
      → reassemble_fragment c f ≡ r
      → after_reassembly go buf frames r ≡ some (c1, rest, ok fs1)
      → GoesOn go frames (c, buf, ok (some f)) c1 rest fs1
  reassembly_inversion c buf f (c', err e) q h = absurd (cc)
  reassembly_inversion c buf f (c', panic) q h = absurd (cc)
  reassembly_inversion c buf f (c', ok none) q h = record {
    frame = f;
    codec = c';
    passed = frames;
    delivers = refl;
    continues = λ go' b. rw q;
    later = h;
  }
  reassembly_inversion c buf f (c', ok (some whole)) q h = record {
    frame = f;
    codec = c';
    passed = frames ++ whole ∷ [];
    delivers = refl;
    continues = λ go' b. rw q;
    later = h;
  }

  pub turn_inversion :
      (d : FrameCodec × List ℕ × Result (Option Frame))
      → after_decode go frames d ≡ some (c1, rest, ok fs1)
      → Last frames d c1 rest fs1 ⊎ GoesOn go frames d c1 rest fs1
  turn_inversion (c, buf, err e) h = absurd (cc)
  turn_inversion (c, buf, panic) h = absurd (cc)
  turn_inversion (c, buf, ok none) h =
      inl (record { waits = refl; codec_eq = cc; rest_eq = cc; frames_eq = cc })
  turn_inversion (c, buf, ok (some f)) h =
      inr (reassembly_inversion c buf f (reassemble_fragment c f) refl h)
