-- ===== src/Frame/Fragments.antt =====
-- Fragments of desktop/protocol/src/frame.rs: `encode_fragment` and `reassemble_fragment`.
pub mod Chunks
pub mod Reassembly
use bit_drive.Prelude.{
  ℕ, zero, suc, ◌+◌, ◌-◌, ◌/◌, Bool, true, false, Option, none, some, List, [], ◌∷◌, ◌++◌, length,
  take, drop, leb, ◌==◌, if◌then◌else◌,
}
use bit_drive.Prelude.Words.{u32, u64}
use bit_drive.Errors.{Result, ok, panic, ◌>>=◌}
use bit_drive.Pb.FrameType.{FrameType, as_i32}
use bit_drive.Pb.Header.{FrameFlags, default_flags}
use bit_drive.Frame.{Frame, FrameFragment, FrameCodec, magic_number, encode}

-- The frame that both branches of `encode_fragment` build around a payload.
abbrev pub plain_frame : FrameType → ℕ → FrameFlags → ℕ → List ℕ → Frame
plain_frame frame_type channel_id flags sequence payload = record {
  header = record {
    magic = magic_number;
    version = 0x00010000;
    type = as_i32 frame_type;
    flags = some flags;
    channel_id = some channel_id;
    sequence = some sequence;
    payload_length = u32 (length payload);
    header_crc = 0;
  };
  payload = payload;
  auth_tag = [];
}

-- `payload.chunks(size)` for a size that is not 0, with fuel for the chunks left.
chunks_from : ℕ → ℕ → List ℕ → List (List ℕ)
chunks_from zero size payload = []
chunks_from (suc fuel) size [] = []
chunks_from (suc fuel) size (b ∷ bs) =
    take size (b ∷ bs) ∷ chunks_from fuel size (drop size (b ∷ bs))

-- A chunk has a byte at least, so as many chunks as bytes are enough.
unfoldable pub chunks : ℕ → List ℕ → List (List ℕ)
unfolding chunks_from
chunks size payload = chunks_from (length payload) size payload

module _ (frame_type : FrameType) (channel_id : ℕ) (flags : FrameFlags) (total_fragments : ℕ) where
  -- The loop over `chunks(..).enumerate()`.
  fragment_loop : FrameCodec → ℕ → List (List ℕ) → FrameCodec × List Frame
  fragment_loop c i [] = (c, [])
  fragment_loop c i (chunk ∷ rest) =
      let frag_flags = record flags {
        is_fragment = true;
        is_last_fragment = i == total_fragments - 1;
      } in
      let frame = plain_frame frame_type channel_id frag_flags c.tx_sequence chunk in
      let (c', frames) =
        fragment_loop (record c { tx_sequence = u64 (c.tx_sequence + 1) }) (i + 1) rest in
      (c', frame ∷ frames)

-- A size of 0 divides by zero.
unfoldable pub encode_fragment :
    (List ℕ → ℕ)
    → FrameCodec
    → FrameType
    → ℕ
    → List ℕ
    → FrameFlags
    → FrameCodec × Result (List Frame)
unfolding fragment_loop
encode_fragment crc32 c frame_type channel_id payload flags =
    if leb (length payload) c.max_payload_size
    then (let frame = plain_frame frame_type channel_id flags c.tx_sequence payload in
        let (c', encoded) = encode crc32 c frame in (c', do _ ← encoded; ok (frame ∷ [])))
    else if c.max_payload_size == 0
    then (c, panic)
    else (let total_fragments = (length payload + c.max_payload_size - 1) / c.max_payload_size in
        let (c', frames) =
          fragment_loop frame_type channel_id flags total_fragments c 0
            (chunks c.max_payload_size payload) in
        (c', ok frames))

-- The stored header has a channel: `reassemble_fragment` unwraps it before it stores the header.
on_channel : ℕ → FrameFragment → Bool
on_channel key f = elim f.header.channel_id [ none ↦ false | some channel ↦ channel == key ]

-- A place in the buffer: the fragments in front of it, the one there, and those behind.
abbrev pub Place : Type 0
Place = List FrameFragment × FrameFragment × List FrameFragment

in_front : FrameFragment → Option Place → Option Place
in_front f none = none
in_front f (some (before, found, behind)) = some (f ∷ before, found, behind)

-- `iter().position(..)`, with what stands at and round the position.
unfoldable pub find_fragment : ℕ → List FrameFragment → Option Place
unfolding on_channel in_front
find_fragment key [] = none
find_fragment key (f ∷ fs) =
    let later = in_front f (find_fragment key fs) in
    if on_channel key f then some ([], f, fs) else later

-- The frame that the last fragment completes: the header of the first one with the length of the
-- whole and its flags reset.
abbrev pub completed : FrameFragment → List ℕ → Frame
completed fragment auth_tag = record {
  header = record (fragment.header) {
    payload_length = u32 (length fragment.payload);
    flags = some default_flags;
  };
  payload = fragment.payload;
  auth_tag = auth_tag;
}

-- The branch of `reassemble_fragment` for a channel with a pending fragment, and for one without.
store_fragment : FrameCodec → Frame → FrameFlags → Option Place → FrameCodec × Result (Option Frame)
store_fragment c frame flags none = (
  record c {
    rx_fragments =
        c.rx_fragments
        ++ record {
          header = frame.header;
          payload = frame.payload;
          fragment_index = 0;
          total_fragments = 0;
        }
          ∷ [];
  },
  ok none,
)
store_fragment c frame flags (some (before, found, behind)) =
    let fragment = record found { payload = found.payload ++ frame.payload } in
    if flags.is_last_fragment
    then (
      record c { rx_fragments = before ++ behind },
      ok (some (completed fragment frame.auth_tag)),
    )
    else (record c { rx_fragments = before ++ fragment ∷ behind }, ok none)

reassemble_flagged : FrameCodec → Frame → FrameFlags → FrameCodec × Result (Option Frame)
unfolding store_fragment
reassemble_flagged c frame flags =
    if flags.is_fragment
    then (elim frame.header.channel_id [
      | none ↦ (c, panic)
      | some channel ↦ elim frame.header.sequence [
        | none ↦ (c, panic)
        | some sequence ↦ store_fragment c frame flags (find_fragment channel c.rx_fragments)
      ]
    ])
    else (c, ok (some frame))

unfoldable pub reassemble_fragment : FrameCodec → Frame → FrameCodec × Result (Option Frame)
unfolding reassemble_flagged
reassemble_fragment c frame = elim frame.header.flags [
  | none ↦ (c, panic)
  | some flags ↦ reassemble_flagged c frame flags
]
