-- ===== src/Tests/Wire.antt =====
-- Examples of desktop/protocol/src/frame.rs and of the types that it uses.
use bit_drive.Prelude.{
  true, ℕ, ◌+◌, ◌≡◌, ◌<◌, refl, ap, ◌≢◌, some, List, [], ◌∷◌, ◌++◌, drop, arith,
}
use bit_drive.Prelude.Words.{u32_at, u64_at}
use bit_drive.Errors.{ok, err, replay_detected}
use bit_drive.Pb.FrameType.{data_frame}
use bit_drive.Pb.Header.{FrameFlags}
use bit_drive.Frame.{Frame, encode, decode}
use bit_drive.Frame.RoundTrip.{IsSendable, sent, received, decode-encode}
use bit_drive.Frame.Fragments.{find_fragment, encode_fragment}
use bit_drive.Frame.Fragments.Reassembly.{reassemble_all, whole, reassemble_all-encode_fragment}
use bit_drive.Frame.Safety.{IsSound, decode-IsSound, decode_fail}
use bit_drive.Frame.Replay.{decode_old, decode_overtaken, decode_twice}
use bit_drive.Tests.{byte_sum, byte_sum-IsU32, codec_at, urgent_flags, hello, hello-IsSendable}

abbrev wire : List ℕ
wire = sent byte_sum (codec_at 7) hello data_frame urgent_flags 3

abbrev arriving : Frame
arriving = received byte_sum (codec_at 7) hello data_frame urgent_flags 3

decode-encode_example :
    (encode byte_sum (codec_at 7) hello ≡ (record (codec_at 7) { tx_sequence = 8 }, ok wire))
    × (decode byte_sum (codec_at 5) (wire ++ 1 ∷ [])
        ≡ (record (codec_at 5) { rx_sequence = 7 }, 1 ∷ [], ok (some arriving)))
decode-encode_example =
    decode-encode byte_sum (codec_at 7) (codec_at 5) hello data_frame urgent_flags 3 (1 ∷ [])
      byte_sum-IsU32 hello-IsSendable (omega arith) (omega arith)

decoded :
    decode byte_sum (codec_at 5) wire
    ≡ (record (codec_at 5) { rx_sequence = 7 }, [], ok (some arriving))
decoded =
    (decode-encode byte_sum (codec_at 7) (codec_at 5) hello data_frame urgent_flags 3 []
      byte_sum-IsU32 hello-IsSendable (omega arith) (omega arith)).1

decode-IsSound_example :
    IsSound byte_sum (codec_at 5) wire arriving (decode byte_sum (codec_at 5) wire)
decode-IsSound_example = decode-IsSound byte_sum (codec_at 5) wire (ap (λ d. d.2) decoded)

-- A frame of channel 4, on which nothing came before, with the flag for a new sequence.
abbrev restart_flags : FrameFlags
restart_flags = record urgent_flags { reset_sequence = true }

abbrev restart : Frame
restart = record hello {
  header = record hello.header { flags = some restart_flags; channel_id = some 4 };
}

restart-IsSendable : IsSendable restart data_frame restart_flags 4
restart-IsSendable = record {
  magic_eq = refl;
  version_u32 = omega arith;
  type_eq = hello-IsSendable.type_eq;
  flags_eq = refl;
  channel_eq = refl;
  channel_u32 = omega arith;
  payload_u32 = omega arith;
  tag_length = refl;
}

decode_overtaken_example :
    let late = sent byte_sum (codec_at 2) restart data_frame restart_flags 4 ++ [] in
    let first = decode byte_sum (codec_at 5) (wire ++ late) in
    (first.2 ≡ ok (some arriving))
    × (decode byte_sum first.0 first.1 ≡ (first.0, [], err (replay_detected 2)))
decode_overtaken_example =
    decode_overtaken byte_sum (codec_at 7) (codec_at 2) (codec_at 5) hello restart data_frame
      data_frame urgent_flags restart_flags 3 4 [] byte_sum-IsU32 hello-IsSendable
      restart-IsSendable (omega arith) (omega arith) (omega arith)

refused : (decode byte_sum (codec_at 9) wire).2 ≡ err (replay_detected 7)
refused =
    ap (λ d. d.2)
      (decode_old byte_sum (codec_at 7) (codec_at 9) hello data_frame urgent_flags 3 []
        byte_sum-IsU32 hello-IsSendable (omega arith) (omega arith))

replayed_no_frame : (f : Frame) → (decode byte_sum (codec_at 9) wire).2 ≢ ok (some f)
replayed_no_frame f h = let refusal = refused in cc

decode_fail_example :
    ((decode byte_sum (codec_at 9) wire).0 ≡ codec_at 9)
    × ((n : ℕ)
        → (decode byte_sum (codec_at 9) wire).2 ≡ err (replay_detected n)
        → ((decode byte_sum (codec_at 9) wire).1 ≡ drop (30 + u32_at wire 22 + 16) wire)
          × (n ≡ u64_at wire 14)
          × (n < 9))
    × (((n : ℕ) → (decode byte_sum (codec_at 9) wire).2 ≢ err (replay_detected n))
        → (decode byte_sum (codec_at 9) wire).1 ≡ wire)
decode_fail_example = decode_fail byte_sum (codec_at 9) wire replayed_no_frame

decode_twice_example :
    (decode byte_sum (codec_at 5) (wire ++ [])
      ≡ (record (codec_at 5) { rx_sequence = 7 }, [], ok (some arriving)))
    × (decode byte_sum (record (codec_at 5) { rx_sequence = 7 }) (wire ++ [])
        ≡ (record (codec_at 5) { rx_sequence = 7 }, [], ok (some arriving)))
decode_twice_example =
    decode_twice byte_sum (codec_at 7) (codec_at 5) hello data_frame urgent_flags 3 []
      byte_sum-IsU32 hello-IsSendable (omega arith) (omega arith)

-- Nine bytes in chunks of four.
reassemble_all-encode_fragment_example :
    (frames : List Frame) × ((encode_fragment byte_sum
        (codec_at 7)
        data_frame
        3
        (1 ∷ 2 ∷ 3 ∷ 4 ∷ 5 ∷ 6 ∷ 7 ∷ 8 ∷ 9 ∷ [])
        urgent_flags).1
      ≡ ok frames)
    × (reassemble_all (codec_at 5) frames ≡ (
      codec_at 5,
      ok (
          whole (codec_at 7) data_frame 3 (1 ∷ 2 ∷ 3 ∷ 4 ∷ 5 ∷ 6 ∷ 7 ∷ 8 ∷ 9 ∷ []) urgent_flags
          ∷ []),
    ))
unfolding find_fragment
reassemble_all-encode_fragment_example =
    reassemble_all-encode_fragment byte_sum (codec_at 7) (codec_at 5) data_frame 3
      (1 ∷ 2 ∷ 3 ∷ 4 ∷ 5 ∷ 6 ∷ 7 ∷ 8 ∷ 9 ∷ []) urgent_flags refl refl (omega arith)
