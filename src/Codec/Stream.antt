-- ===== src/Codec/Stream.antt =====
-- Where the reads of a stream are cut does not matter to the receive loop of
-- desktop/protocol/src/codec.rs.
use bit_drive.Prelude.{
  ℕ, zero, suc, ◌<◌, ◌≡◌, ◌≢◌, refl, sym, ap, ◌∙◌, Option, none, some, List, [], ◌∷◌, ◌++◌, length,
  length-append, append_assoc, append-nil, arith, inl, inr,
}
use mathlib.Core.Path.{subst}
use bit_drive.Errors.{Result, ok, err, panic}
use bit_drive.Frame.{Frame, FrameCodec, decode}
use bit_drive.Frame.Safety.{decode_left}
use bit_drive.Frame.Stable.{decode-append}
use bit_drive.Frame.Fragments.{reassemble_fragment}
use bit_drive.Codec.{
  ProtocolCodec, Outcome, after_reassembly, after_decode, decode_loop, decode_data, finish,
}
use bit_drive.Codec.Loop.{Go, decode_shrinks, decode_loop-fuel, decode_loop_total, turn_inversion}

-- A call that waits for more bytes changes nothing.
decode_waits :
    (crc32 : List ℕ → ℕ) (c : FrameCodec) (buf : List ℕ)
    → (decode crc32 c buf).2 ≡ ok none
    → ((decode crc32 c buf).0 ≡ c) × ((decode crc32 c buf).1 ≡ buf)
decode_waits crc32 c buf h =
    let (same, left) = decode_left crc32 c buf (λ f q. cc) in
    (same, elim left [ inl e ↦ e | inr (e, q) ↦ absurd (cc) ])

module _ (crc32 : List ℕ → ℕ) (more : List ℕ) where
  -- A loop that has ended well goes on, with more bytes, from where it ended.
  decode_loop-append :
      (fuel n m : ℕ) (c : FrameCodec) (buf : List ℕ) (frames : List Frame) {c1 : FrameCodec}
      {rest : List ℕ} {fs1 : List Frame}
      → length buf < fuel
      → decode_loop crc32 fuel c buf frames ≡ some (c1, rest, ok fs1)
      → length (buf ++ more) < n
      → length (rest ++ more) < m
      → decode_loop crc32 n c (buf ++ more) frames ≡ decode_loop crc32 m c1 (rest ++ more) fs1
  unfolding decode_loop
  decode_loop-append zero n m c buf frames h e k j = absurd (omega arith)
  decode_loop-append (suc fuel) zero m c buf frames h e k j = absurd (omega arith)
  decode_loop-append (suc fuel) (suc n) m c buf frames {c1} {rest} {fs1} h e k j =
      elim (turn_inversion (decode_loop crc32 fuel) frames (decode crc32 c buf) e) [
        | inl last ↦
            let (same, left) = decode_waits crc32 c buf last.waits in
            let left' : buf ≡ rest = sym left ∙ last.rest_eq in
            let same' : c ≡ c1 = sym same ∙ last.codec_eq in
            (λ i. decode_loop crc32 (suc n) (same' i) (left' i ++ more) (last.frames_eq i))
            ∙ decode_loop-fuel crc32 (suc n) m c1 (rest ++ more) fs1
                (subst (λ b. length (b ++ more) < suc n) left' k) j
        | inr on ↦
            let d = decode crc32 c buf in
            let longer : decode crc32 c (buf ++ more) ≡ (d.0, d.1 ++ more, ok (some on.frame)) =
              decode-append buf more crc32 c (λ q. cc) ∙ (λ i. (d.0, d.1 ++ more, on.delivers i)) in
            let fewer = decode_shrinks crc32 c buf on.delivers in
            ap (after_decode (decode_loop crc32 n) frames) longer
            ∙ (on.continues (decode_loop crc32 n) (d.1 ++ more)
                ∙ decode_loop-append fuel n m on.codec d.1 on.passed (omega (arith, fewer)) on.later
                    (omega (arith, fewer, length-append buf more, length-append d.1 more)) j)
      ]

-- The frames that a loop found before it was entered come first.
abbrev pub prepend : List Frame → Outcome → Outcome
prepend fs none = none
prepend fs (some (c, rest, ok gs)) = some (c, rest, ok (fs ++ gs))
prepend fs (some (c, rest, err e)) = some (c, rest, err e)
prepend fs (some (c, rest, panic)) = some (c, rest, panic)

module _ (fs : List Frame) (go : Go) where
  Prepends : (FrameCodec → List ℕ → Type 0)
  Prepends c b = (gs : List Frame) → go c b (fs ++ gs) ≡ prepend fs (go c b gs)

  after_reassembly-prepend :
      (buf : List ℕ) (frames : List Frame) (r : FrameCodec × Result (Option Frame))
      → ((c : FrameCodec) → Prepends c buf)
      → after_reassembly go buf (fs ++ frames) r ≡ prepend fs (after_reassembly go buf frames r)
  unfolding Prepends
  after_reassembly-prepend buf frames (c, err e) h = refl
  after_reassembly-prepend buf frames (c, panic) h = refl
  after_reassembly-prepend buf frames (c, ok none) h = h c frames
  after_reassembly-prepend buf frames (c, ok (some f)) h = rw append_assoc (h c (frames ++ f ∷ []))

  after_decode-prepend :
      (frames : List Frame) (d : FrameCodec × List ℕ × Result (Option Frame))
      → ((c : FrameCodec) → Prepends c d.1)
      → after_decode go (fs ++ frames) d ≡ prepend fs (after_decode go frames d)
  after_decode-prepend frames (c, buf, err e) h = refl
  after_decode-prepend frames (c, buf, panic) h = refl
  after_decode-prepend frames (c, buf, ok none) h = refl
  after_decode-prepend frames (c, buf, ok (some f)) h =
      after_reassembly-prepend buf frames (reassemble_fragment c f) h

pub decode_loop-prepend :
    (crc32 : List ℕ → ℕ) (n : ℕ) (c : FrameCodec) (buf : List ℕ) (fs frames : List Frame)
    → decode_loop crc32 n c buf (fs ++ frames) ≡ prepend fs (decode_loop crc32 n c buf frames)
unfolding decode_loop Prepends
decode_loop-prepend crc32 zero c buf fs frames = refl
decode_loop-prepend crc32 (suc n) c buf fs frames =
    after_decode-prepend fs (decode_loop crc32 n) frames (decode crc32 c buf)
      (λ c' gs. decode_loop-prepend crc32 n c' (decode crc32 c buf).1 fs gs)

-- What a call of `decode` gives after one that gave `fs`, if both are taken together.
abbrev pub both :
    List Frame
    → Option (ProtocolCodec × Result (List Frame))
    → Option (ProtocolCodec × Result (List Frame))
both fs none = none
both fs (some (p, ok gs)) = some (p, ok (fs ++ gs))
both fs (some (p, err e)) = some (p, err e)
both fs (some (p, panic)) = some (p, panic)

pub finish_inversion :
    (o : Outcome) {p : ProtocolCodec} {r : Result (List Frame)}
    → finish o ≡ some (p, r)
    → o ≡ some (p.frame_codec, p.rx_buffer, r)
finish_inversion none h = cc
finish_inversion (some (c, rest, s)) h = cc

finish-prepend : (fs : List Frame) (o : Outcome) → finish (prepend fs o) ≡ both fs (finish o)
finish-prepend fs none = refl
finish-prepend fs (some (c, rest, ok gs)) = refl
finish-prepend fs (some (c, rest, err e)) = refl
finish-prepend fs (some (c, rest, panic)) = refl

-- A stream that comes in two reads gives what it gives in one: after a first call of `decode` that
-- returned `fs`, one call on all the bytes leaves the same codec as the second call, and returns
-- `fs` followed by its frames, or its error.
pub decode_data-append :
    (crc32 : List ℕ → ℕ) (p p1 : ProtocolCodec) (a b : List ℕ) (fs : List Frame)
    → decode_data crc32 p a ≡ some (p1, ok fs)
    → decode_data crc32 p (a ++ b) ≡ both fs (decode_data crc32 p1 b)
unfolding decode_data
decode_data-append crc32 p p1 a b fs h =
    let first = finish_inversion _ h in
    let fuel = length ((p.rx_buffer ++ a) ++ b) in
    let n = length (p1.rx_buffer ++ b) in
    let go =
      decode_loop-append crc32 b (suc (length (p.rx_buffer ++ a))) (suc fuel) (suc n) p.frame_codec
        (p.rx_buffer ++ a) [] (omega arith) first (omega arith) (omega arith) in
    let rest = p1.rx_buffer ++ b in
    rw (← append_assoc) (
      ap finish go
      ∙ (ap finish (
            ap (decode_loop crc32 (suc n) p1.frame_codec rest) (sym (append-nil fs))
            ∙ decode_loop-prepend crc32 (suc n) p1.frame_codec rest fs [])
          ∙ finish-prepend fs (decode_loop crc32 (suc n) p1.frame_codec rest [])))

finish_total :
    (o : Outcome) → o ≢ none → (r : ProtocolCodec × Result (List Frame)) × (finish o ≡ some r)
finish_total none h = absurd (h refl)
finish_total (some (c, rest, r)) h = ((record { frame_codec = c; rx_buffer = rest }, r), refl)

-- The receive loop ends, whatever comes in: the fuel is enough.
pub decode_data_total :
    (crc32 : List ℕ → ℕ) (p : ProtocolCodec) (received : List ℕ)
    → (r : ProtocolCodec × Result (List Frame)) × (decode_data crc32 p received ≡ some r)
unfolding decode_data
decode_data_total crc32 p received = finish_total _ (
    decode_loop_total crc32 (suc (length (p.rx_buffer ++ received))) p.frame_codec
      (p.rx_buffer ++ received) [] (omega arith))
