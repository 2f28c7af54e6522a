-- ===== src/Frame/Fragments/Reassembly.antt =====
-- Fragmenting a payload and reassembling the fragments, both of desktop/protocol/src/frame.rs.
use mathlib.Core.List.{flatten}
use bit_drive.Prelude.{
  ℕ, suc, ◌+◌, ◌-◌, ◌/◌, ◌≤◌, ◌<◌, ◌≡◌, refl, List, [], ◌∷◌, ◌++◌, length, arith, ◌∙◌, Bool, true,
  false, Option, none, some, leb, ◌==◌, if◌then◌else◌, append_assoc, append-nil, Bool-cases, inl,
  inr,
}
use bit_drive.Prelude.Words.{u64}
use bit_drive.Errors.{Result, ok, err, panic, ◌>>=◌}
use bit_drive.Pb.FrameType.{FrameType}
use bit_drive.Pb.Header.{FrameFlags, FrameHeader, default_flags}
use bit_drive.Frame.{Frame, FrameFragment, FrameCodec, encode}
use bit_drive.Frame.Fragments.{
  plain_frame, chunks, fragment_loop, encode_fragment, find_fragment, completed,
  reassemble_fragment,
}
use bit_drive.Frame.Fragments.Chunks.{flatten-chunks, length-chunks, two_chunks}

-- The rest of a run of `reassemble_all`, after one result.
abbrev and_then :
    FrameCodec
    → Result (Option Frame)
    → FrameCodec × Result (List Frame)
    → FrameCodec × Result (List Frame)
and_then c (ok none) later = later
and_then c (ok (some f)) later = (later.0, do fs ← later.1; ok (f ∷ fs))
and_then c (err e) later = (c, err e)
and_then c panic later = (c, panic)

-- Frame after frame into `reassemble_fragment`: the codec afterwards and the frames that came out,
-- up to the first error.
pub reassemble_all : FrameCodec → List Frame → FrameCodec × Result (List Frame)
reassemble_all c [] = (c, ok [])
reassemble_all c (f ∷ fs) =
    let (c', r) = reassemble_fragment c f in let later = reassemble_all c' fs in and_then c' r later

reassemble_all-step :
    (c : FrameCodec) (f : Frame) (fs : List Frame) {c' : FrameCodec} {r : Result (Option Frame)}
    → reassemble_fragment c f ≡ (c', r)
    → reassemble_all c (f ∷ fs) ≡ and_then c' r (reassemble_all c' fs)
unfolding reassemble_all
reassemble_all-step c f fs e = rw e

find_fragment-append :
    (key : ℕ) (fs : List FrameFragment) (g : FrameFragment)
    → find_fragment key fs ≡ none
    → g.header.channel_id ≡ some key
    → find_fragment key (fs ++ g ∷ []) ≡ some (fs, g, [])
unfolding find_fragment
find_fragment-append key [] g h e = ground arith
find_fragment-append key (f ∷ fs) g h e = ground (arith, find_fragment-append key fs g)

abbrev fragment_flags : FrameFlags → Bool → FrameFlags
fragment_flags flags last = record flags { is_fragment = true; is_last_fragment = last }

-- The fragment that a first frame with header `h` leaves, when `payload` has come in.
abbrev pending : FrameHeader → List ℕ → FrameFragment
pending h payload = record {
  header = h;
  payload = payload;
  fragment_index = 0;
  total_fragments = 0;
}

module _ (rx : FrameCodec) (t : FrameType) (channel : ℕ) (flags : FrameFlags)
    (free : find_fragment channel rx.rx_fragments ≡ none) where
  abbrev waiting : FrameHeader → List ℕ → FrameCodec
  waiting h acc = record rx { rx_fragments = rx.rx_fragments ++ pending h acc ∷ [] }

  -- The first fragment opens a buffer.
  reassemble_first :
      (last : Bool) (q : ℕ) (chunk : List ℕ)
      → let f = plain_frame t channel (fragment_flags flags last) q chunk in
        reassemble_fragment rx f ≡ (waiting f.header chunk, ok none)
  unfolding reassemble_fragment
  reassemble_first last q chunk = rw free

  module _ (h : FrameHeader) (same : h.channel_id ≡ some channel) where
    reassemble_more :
        (q : ℕ) (acc chunk : List ℕ)
        → reassemble_fragment
            (waiting h acc)
            (plain_frame t channel (fragment_flags flags false) q chunk)
          ≡ (waiting h (acc ++ chunk), ok none)
    unfolding reassemble_fragment
    reassemble_more q acc chunk =
        rw (find_fragment-append channel rx.rx_fragments (pending h acc) free same)

    reassemble_last :
        (q : ℕ) (acc chunk : List ℕ)
        → reassemble_fragment
            (waiting h acc)
            (plain_frame t channel (fragment_flags flags true) q chunk)
          ≡ (rx, ok (some (completed (pending h (acc ++ chunk)) [])))
    unfolding reassemble_fragment
    reassemble_last q acc chunk =
        rw (find_fragment-append channel rx.rx_fragments (pending h acc) free same, append-nil)

    -- All fragments but the first: they fill the buffer, and the last one empties it.
    reassemble_loop :
        (c : FrameCodec) (total i : ℕ) (acc x : List ℕ) (xs : List (List ℕ))
        → i + suc (length xs) ≡ total
        → reassemble_all (waiting h acc) (fragment_loop t channel flags total c i (x ∷ xs)).1
          ≡ (rx, ok (completed (pending h (acc ++ flatten (x ∷ xs))) [] ∷ []))
    unfolding fragment_loop flatten
    reassemble_loop c total i acc x [] e =
        let at_end : (i == total - 1) ≡ true = ground arith in
        rw at_end (
          reassemble_all-step _ _ _ (reassemble_last c.tx_sequence acc x)
          ∙ (unfold reassemble_all in rw append-nil))
    reassemble_loop c total i acc x (y ∷ ys) e =
        let inside : (i == total - 1) ≡ false = ground arith in
        let c' = record c { tx_sequence = u64 (c.tx_sequence + 1) } in
        rw inside (
          reassemble_all-step _ _ _ (reassemble_more c.tx_sequence acc x)
          ∙ (reassemble_loop c' total (i + 1) (acc ++ x) y ys (omega arith) ∙ rw append_assoc))

  reassemble_chunks :
      (c : FrameCodec) (total : ℕ) (cs : List (List ℕ))
      → 2 ≤ length cs
      → length cs ≡ total
      → reassemble_all rx (fragment_loop t channel flags total c 0 cs).1
        ≡ (rx, ok (plain_frame t channel default_flags c.tx_sequence (flatten cs) ∷ []))
  unfolding fragment_loop flatten
  reassemble_chunks c total [] n e = absurd (omega arith)
  reassemble_chunks c total (x ∷ []) n e = absurd (omega arith)
  reassemble_chunks c total (x ∷ y ∷ ys) n e =
      let c' = record c { tx_sequence = u64 (c.tx_sequence + 1) } in
      let last = 0 == total - 1 in
      let f = plain_frame t channel (fragment_flags flags last) c.tx_sequence x in
      reassemble_all-step _ _ _ (reassemble_first last c.tx_sequence x)
      ∙ reassemble_loop f.header refl c' total (0 + 1) x y ys (omega arith)

-- A frame that is no fragment passes through.
reassemble_whole :
    (rx : FrameCodec) (t : FrameType) (channel q : ℕ) (payload : List ℕ) (flags : FrameFlags)
    → flags.is_fragment ≡ false
    → let f = plain_frame t channel flags q payload in
      reassemble_all rx (f ∷ []) ≡ (rx, ok (f ∷ []))
unfolding reassemble_all reassemble_fragment
reassemble_whole rx t channel q payload flags plain = rw plain

-- The frame that comes out for a payload: a payload in one frame keeps its flags, one in several
-- frames comes with all flags reset.
abbrev pub whole : FrameCodec → FrameType → ℕ → List ℕ → FrameFlags → Frame
whole tx t channel payload flags =
    plain_frame t channel
      (if leb (length payload) tx.max_payload_size then flags else default_flags) tx.tx_sequence
      payload

-- Fragmenting and reassembling a payload gives it back: `encode_fragment` succeeds, and its frames,
-- handed in order to a codec with no fragment pending on the channel, give one frame with the whole
-- payload and leave the codec as it was. The size limit is not 0, and the caller's flags do not
-- claim that the payload is itself a fragment.
pub reassemble_all-encode_fragment :
    (crc32 : List ℕ → ℕ) (tx rx : FrameCodec) (t : FrameType) (channel : ℕ) (payload : List ℕ)
    (flags : FrameFlags)
    → find_fragment channel rx.rx_fragments ≡ none
    → flags.is_fragment ≡ false
    → 0 < tx.max_payload_size
    → (frames : List Frame) × ((encode_fragment crc32 tx t channel payload flags).1 ≡ ok frames)
      × (reassemble_all rx frames ≡ (rx, ok (whole tx t channel payload flags ∷ [])))
unfolding encode_fragment
reassemble_all-encode_fragment crc32 tx rx t channel payload flags free plain pos =
    elim (Bool-cases (leb (length payload) tx.max_payload_size)) [
      | inl small ↦ (
        plain_frame t channel flags tx.tx_sequence payload ∷ [],
        (unfold encode in rw small),
        rw small (reassemble_whole rx t channel tx.tx_sequence payload flags plain),
      )
      | inr big ↦
          let cs = chunks tx.max_payload_size payload in
          let total = (length payload + tx.max_payload_size - 1) / tx.max_payload_size in
          let nonzero : (tx.max_payload_size == 0) ≡ false = ground arith in
          let count = length-chunks tx.max_payload_size payload pos in
          let enough = two_chunks (length payload) tx.max_payload_size pos (ground arith) in
          (
            (fragment_loop t channel flags total tx 0 cs).1,
            rw (big, nonzero),
            rw big (
                reassemble_chunks rx t channel flags free tx total cs (omega (arith, count, enough))
                  count
                ∙ rw (flatten-chunks tx.max_payload_size payload pos)),
          )
    ]
