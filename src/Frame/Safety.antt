-- ===== src/Frame/Safety.antt =====
-- What every call of `decode` of desktop/protocol/src/frame.rs keeps to, whatever the bytes.
use bit_drive.Prelude.{
  ℕ, ◌+◌, ◌≤◌, ◌<◌, ◌≡◌, ◌≢◌, sym, ◌⊎◌, inl, inr, refl, ap, ◌∙◌, Option, some, List, ◌++◌, length,
  take, drop, length-take, length-drop, arith, get_or, take-append-drop, drop-add, Bool-cases,
  Option-cases, ltb, ◌==◌, not_ltb→le, ltb→lt, ==_iff,
}
use mathlib.Core.Path.{subst}
use bit_drive.Prelude.Words.{u32_at, u64_at}
use bit_drive.Errors.{Result, ok, err, replay_detected, err≢ok, err-injective}
use bit_drive.Pb.FrameType.{FrameType, try_from, as_i32, try_from_sound}
use bit_drive.Frame.Flags.{unpack_flags}
use bit_drive.Frame.{
  Frame, FrameCodec, decode, decode_sized, accept, calculate_header_crc_raw, magic_number,
}

module _ (crc32 : List ℕ → ℕ) (c : FrameCodec) (buf : List ℕ) where
  -- The tests that stand before the extraction of the payload.
  record IsComplete (t : FrameType) : Type 0 where
    magic_eq : u32_at buf 0 ≡ magic_number
    type_eq : try_from (get_or buf 8 0) ≡ some t
    fits : 30 + u32_at buf 22 + 16 ≤ length buf
    crc_eq : crc32 (take 26 (take 30 buf)) ≡ u32_at buf 26

  -- A call that extracts nothing.
  record IsIdle (d : FrameCodec × List ℕ × Result (Option Frame)) : Type 0 where
    codec_eq : d.0 ≡ c
    buf_eq : d.1 ≡ buf
    no_frame : (f : Frame) → d.2 ≢ ok (some f)
    no_replay : (n : ℕ) → d.2 ≢ err (replay_detected n)

  decode_sized-cases :
      (t : FrameType)
      → u32_at buf 0 ≡ magic_number
      → try_from (get_or buf 8 0) ≡ some t
      → IsIdle (decode_sized crc32 c buf t)
        ⊎ (IsComplete t × (decode_sized crc32 c buf t ≡ accept crc32 c buf t))
  unfolding decode_sized calculate_header_crc_raw
  decode_sized-cases t m k = elim (Bool-cases (ltb (length buf) (30 + u32_at buf 22 + 16))) [
    | inl short ↦ inl (
        rw short
          (record { codec_eq = refl; buf_eq = refl; no_frame = λ f. cc; no_replay = λ n. cc }))
    | inr whole ↦ elim (Bool-cases (crc32 (take 26 (take 30 buf)) == u32_at buf 26)) [
      | inr bad ↦ inl (
          rw (whole, bad)
            (record { codec_eq = refl; buf_eq = refl; no_frame = λ f. cc; no_replay = λ n. cc }))
      | inl good ↦ inr (
        record {
          magic_eq = m;
          type_eq = k;
          fits = not_ltb→le _ _ whole;
          crc_eq = (==_iff _ _).0 good;
        },
        rw (whole, good),
      )
    ]
  ]

  decode-cases :
      IsIdle (decode crc32 c buf)
      ⊎ ((t : FrameType) × IsComplete t × (decode crc32 c buf ≡ accept crc32 c buf t))
  unfolding decode
  decode-cases = elim (Bool-cases (ltb (length buf) 46)) [
    | inl short ↦ inl (
        rw short
          (record { codec_eq = refl; buf_eq = refl; no_frame = λ f. cc; no_replay = λ n. cc }))
    | inr enough ↦ elim (Bool-cases (u32_at buf 0 == magic_number)) [
      | inr bad ↦ inl (
          rw (enough, bad)
            (record { codec_eq = refl; buf_eq = refl; no_frame = λ f. cc; no_replay = λ n. cc }))
      | inl good ↦ elim (Option-cases (try_from (get_or buf 8 0))) [
        | inl unknown ↦ inl (
            rw (enough, good, unknown)
              (record { codec_eq = refl; buf_eq = refl; no_frame = λ f. cc; no_replay = λ n. cc }))
        | inr (t, known) ↦ elim (decode_sized-cases t ((==_iff _ _).0 good) known) [
          | inl idle ↦ inl (rw (enough, good, known) idle)
          | inr (complete, e) ↦ inr (t, complete, rw (enough, good, known) e)
        ]
      ]
    ]
  ]

  -- What a call that delivers a frame has found in the buffer, and what it leaves: `d` is its
  -- result.
  pub record IsSound (f : Frame) (d : FrameCodec × List ℕ × Result (Option Frame)) : Type 0 where
    pub framing : buf ≡ take 30 buf ++ (f.payload ++ (f.auth_tag ++ d.1))
    pub header_length : length (take 30 buf) ≡ 30
    pub payload_length : length f.payload ≡ f.header.payload_length
    pub tag_length : length f.auth_tag ≡ 16
    pub magic : f.header.magic ≡ magic_number
    pub type : f.header.type ≡ get_or buf 8 0
    pub crc : crc32 (take 26 (take 30 buf)) ≡ f.header.header_crc
    pub sequence : f.header.sequence ≡ some d.0.rx_sequence
    pub fresh : c.rx_sequence ≤ d.0.rx_sequence
    pub codec : d.0 ≡ record c { rx_sequence = d.0.rx_sequence }

  cut :
      (n : ℕ)
      → 30 + n + 16 ≤ length buf
      → buf
        ≡ take 30 buf
          ++ (take n (drop 30 buf) ++ (take 16 (drop (30 + n) buf) ++ drop (30 + n + 16) buf))
  cut n h = rw (
    drop-add (30 + n) 16 buf,
    take-append-drop 16 (drop (30 + n) buf),
    drop-add 30 n buf,
    take-append-drop n (drop 30 buf),
    take-append-drop 30 buf,
  )

  -- The frame that `accept` takes out.
  abbrev extracted : FrameType → Frame
  extracted t = record {
    header = record {
      magic = u32_at buf 0;
      version = u32_at buf 4;
      type = as_i32 t;
      flags = some (unpack_flags (get_or buf 9 0));
      channel_id = some (u32_at buf 10);
      sequence = some (u64_at buf 14);
      payload_length = u32_at buf 22;
      header_crc = u32_at buf 26;
    };
    payload = take (u32_at buf 22) (drop 30 buf);
    auth_tag = take 16 (drop (30 + u32_at buf 22) buf);
  }

  abbrev taken : FrameType → FrameCodec × List ℕ × Result (Option Frame)
  taken t = (
    record c { rx_sequence = u64_at buf 14 },
    drop (30 + u32_at buf 22 + 16) buf,
    ok (some (extracted t)),
  )

  taken-IsSound :
      (t : FrameType)
      → IsComplete t
      → c.rx_sequence ≤ u64_at buf 14
      → IsSound (extracted t) (taken t)
  taken-IsSound t w new = record {
    framing = cut (u32_at buf 22) w.fits;
    header_length = omega (arith, length-take 30 buf, w.fits);
    payload_length =
        omega (arith, length-take (u32_at buf 22) (drop 30 buf), length-drop 30 buf, w.fits);
    tag_length = omega (
      arith,
      length-take 16 (drop (30 + u32_at buf 22) buf),
      length-drop (30 + u32_at buf 22) buf,
      w.fits,
    );
    magic = w.magic_eq;
    type = try_from_sound (get_or buf 8 0) w.type_eq;
    crc = w.crc_eq;
    sequence = refl;
    fresh = new;
    codec = refl;
  }

  accept-IsSound :
      (t : FrameType) {f : Frame}
      → IsComplete t
      → (accept crc32 c buf t).2 ≡ ok (some f)
      → IsSound f (accept crc32 c buf t)
  unfolding accept
  accept-IsSound t {f} w h = elim (Bool-cases (ltb (u64_at buf 14) c.rx_sequence)) [
    | inl old ↦ absurd (cc (rw old at h))
    | inr new ↦
        let same : ok (some (extracted t)) ≡ ok (some f) = rw new at h in
        let e : extracted t ≡ f = cc in
        rw new (subst (λ g. IsSound g (taken t)) e (taken-IsSound t w (not_ltb→le _ _ new)))
  ]

-- A frame is delivered only from bytes that hold it: the buffer is the header, the payload, the tag
-- and what is left; the payload has the announced length and the tag 16 bytes; magic number and
-- type are those read; the CRC of the first 26 bytes is the header's; the sequence number is not
-- below the last one and becomes the last one, and nothing else of the codec changes.
pub decode-IsSound :
    (crc32 : List ℕ → ℕ) (c : FrameCodec) (buf : List ℕ) {f : Frame}
    → (decode crc32 c buf).2 ≡ ok (some f)
    → IsSound crc32 c buf f (decode crc32 c buf)
decode-IsSound crc32 c buf {f} h = elim (decode-cases crc32 c buf) [
  | inl idle ↦ absurd (idle.no_frame f h)
  | inr (t, w, e) ↦ rw e (accept-IsSound crc32 c buf t w (rw e at h))
]

accept-rx_sequence :
    (crc32 : List ℕ → ℕ) (c : FrameCodec) (buf : List ℕ) (t : FrameType)
    → c.rx_sequence ≤ (accept crc32 c buf t).0.rx_sequence
unfolding accept
accept-rx_sequence crc32 c buf t = ground arith

-- The sequence number of the receiver never falls.
pub decode-rx_sequence :
    (crc32 : List ℕ → ℕ) (c : FrameCodec) (buf : List ℕ)
    → c.rx_sequence ≤ (decode crc32 c buf).0.rx_sequence
decode-rx_sequence crc32 c buf = elim (decode-cases crc32 c buf) [
  | inl idle ↦ rw idle.codec_eq (omega arith)
  | inr (t, w, e) ↦ rw e (accept-rx_sequence crc32 c buf t)
]

accept_fail :
    (crc32 : List ℕ → ℕ) (c : FrameCodec) (buf : List ℕ) (t : FrameType)
    → ((f : Frame) → (accept crc32 c buf t).2 ≢ ok (some f))
    → accept crc32 c buf t
      ≡ (c, drop (30 + u32_at buf 22 + 16) buf, err (replay_detected (u64_at buf 14)))
unfolding accept
accept_fail crc32 c buf t h = elim (Bool-cases (ltb (u64_at buf 14) c.rx_sequence)) [
  | inl old ↦ rw old
  | inr new ↦ absurd (h (extracted crc32 c buf t) (rw new))
]

-- What a call that delivers nothing leaves: the buffer as it was, or what follows a replay.
pub decode_left :
    (crc32 : List ℕ → ℕ) (c : FrameCodec) (buf : List ℕ)
    → ((f : Frame) → (decode crc32 c buf).2 ≢ ok (some f))
    → ((decode crc32 c buf).0 ≡ c)
      × (((decode crc32 c buf).1 ≡ buf)
          ⊎ (((decode crc32 c buf).1 ≡ drop (30 + u32_at buf 22 + 16) buf)
              × ((decode crc32 c buf).2 ≡ err (replay_detected (u64_at buf 14)))))
decode_left crc32 c buf h = elim (decode-cases crc32 c buf) [
  | inl idle ↦ (idle.codec_eq, inl idle.buf_eq)
  | inr (t, w, e) ↦
      let fails = e ∙ accept_fail crc32 c buf t (λ f q. h f (ap (λ d. d.2) e ∙ q)) in
      (ap (λ d. d.0) fails, inr (ap (λ d. d.1) fails, ap (λ d. d.2) fails))
]

accept_refused :
    (crc32 : List ℕ → ℕ) (c : FrameCodec) (buf : List ℕ) (t : FrameType) (n : ℕ)
    → (accept crc32 c buf t).2 ≡ err (replay_detected n)
    → ((accept crc32 c buf t).1 ≡ drop (30 + u32_at buf 22 + 16) buf)
      × (n ≡ u64_at buf 14)
      × (n < c.rx_sequence)
unfolding accept
accept_refused crc32 c buf t n h = elim (Bool-cases (ltb (u64_at buf 14) c.rx_sequence)) [
  | inl old ↦
      let reported : replay_detected (u64_at buf 14) ≡ replay_detected n =
        err-injective {A = Option Frame} (rw old at h) in
      let same : n ≡ u64_at buf 14 = cc in (rw old, same, rw same (ltb→lt _ _ old))
  | inr new ↦ absurd (err≢ok (sym (rw new at h)))
]

-- A call that delivers nothing leaves the codec as it was. If it refuses a replay, the bytes of that
-- frame, and no others, are taken off the buffer, and the number that it reports is the frame's and
-- below the receiver's; after every other outcome the buffer is as it was.
pub decode_fail :
    (crc32 : List ℕ → ℕ) (c : FrameCodec) (buf : List ℕ)
    → ((f : Frame) → (decode crc32 c buf).2 ≢ ok (some f))
    → ((decode crc32 c buf).0 ≡ c)
      × ((n : ℕ)
          → (decode crc32 c buf).2 ≡ err (replay_detected n)
          → ((decode crc32 c buf).1 ≡ drop (30 + u32_at buf 22 + 16) buf)
            × (n ≡ u64_at buf 14)
            × (n < c.rx_sequence))
      × (((n : ℕ) → (decode crc32 c buf).2 ≢ err (replay_detected n))
          → (decode crc32 c buf).1 ≡ buf)
decode_fail crc32 c buf h = (
  (decode_left crc32 c buf h).0,
  λ n. λ refused. elim (decode-cases crc32 c buf) [
    | inl idle ↦ absurd (idle.no_replay n refused)
    | inr (t, w, e) ↦ rw e (accept_refused crc32 c buf t n (rw e at refused))
  ],
  λ other. elim (decode_left crc32 c buf h).1 [
    | inl same ↦ same
    | inr gone ↦ absurd (other (u64_at buf 14) gone.1)
  ],
)
