-- ===== src/Tests/Receive.antt =====
-- Examples of desktop/protocol/src/codec.rs.
use bit_drive.Prelude.{ℕ, zero, suc, ◌≡◌, refl, some, List, [], ◌∷◌, ◌++◌, arith}
use bit_drive.Errors.{Result, ok, err, invalid_magic}
use bit_drive.Pb.FrameType.{data_frame, keepalive}
use bit_drive.Frame.{Frame, magic_number, decode}
use bit_drive.Codec.{ProtocolCodec, decode_data, encode_control_frame}
use bit_drive.Codec.Delivery.{Parcel, encode_all, received_all, arrived, decode_data-encode_all}
use bit_drive.Codec.Stream.{both, decode_data-append, decode_data_total}
use bit_drive.Codec.Sticky.{decode_data_stuck}
use bit_drive.Codec.Untagged.{decode_data-encode_control_frame}
use bit_drive.Tests.{byte_sum, byte_sum-IsU32, codec_at, urgent_flags, hello, hello-IsSendable}

abbrev idle : ProtocolCodec
idle = record { frame_codec = codec_at 5; rx_buffer = [] }

abbrev parcel : Parcel
parcel = record {
  frame = hello;
  type = data_frame;
  flags = urgent_flags;
  channel = 3;
  sendable = hello-IsSendable;
  unfragmented = refl;
}

decode_data-encode_all_example :
    (bytes : List ℕ) × (encode_all byte_sum (codec_at 7) (parcel ∷ parcel ∷ []) ≡ ok bytes)
    × (decode_data byte_sum idle bytes
        ≡ some (
          record {
            frame_codec = arrived byte_sum (codec_at 5) (codec_at 7) (parcel ∷ parcel ∷ []);
            rx_buffer = [];
          },
          ok (received_all byte_sum (codec_at 7) (parcel ∷ parcel ∷ [])),
        ))
decode_data-encode_all_example =
    decode_data-encode_all byte_sum (codec_at 7) (codec_at 5) (parcel ∷ parcel ∷ []) byte_sum-IsU32
      (omega arith) (omega arith)

-- Three bytes are no frame yet.
abbrev waiting : ProtocolCodec
waiting = record { frame_codec = codec_at 5; rx_buffer = 1 ∷ 76 ∷ 80 ∷ [] }

waits : decode_data byte_sum idle (1 ∷ 76 ∷ 80 ∷ []) ≡ some (waiting, ok [])
unfolding decode_data decode
waits = refl

decode_data-append_example :
    decode_data byte_sum idle (1 ∷ 76 ∷ 80 ∷ 66 ∷ 0 ∷ [])
    ≡ both [] (decode_data byte_sum waiting (66 ∷ 0 ∷ []))
decode_data-append_example =
    decode_data-append byte_sum idle waiting (1 ∷ 76 ∷ 80 ∷ []) (66 ∷ 0 ∷ []) [] waits

decode_data_total_example :
    (r : ProtocolCodec × Result (List Frame)) × (decode_data byte_sum idle (1 ∷ 76 ∷ 80 ∷ [])
      ≡ some r)
decode_data_total_example = decode_data_total byte_sum idle (1 ∷ 76 ∷ 80 ∷ [])

-- 46 bytes that do not begin with the magic number.
abbrev noise : ℕ → List ℕ
noise zero = []
noise (suc n) = 0 ∷ noise n

abbrev jammed : ProtocolCodec
jammed = record { frame_codec = codec_at 5; rx_buffer = noise 46 }

jams : decode_data byte_sum idle (noise 46) ≡ some (jammed, err (invalid_magic magic_number 0))
unfolding decode_data decode
jams = refl

decode_data_stuck_example :
    decode_data byte_sum jammed (7 ∷ [])
    ≡ some (record jammed { rx_buffer = noise 46 ++ 7 ∷ [] }, err (invalid_magic magic_number 0))
decode_data_stuck_example =
    decode_data_stuck byte_sum idle jammed (noise 46) (7 ∷ []) (invalid_magic magic_number 0)
      (λ s h. cc) jams

abbrev message : ℕ → Result (List ℕ)
message n = ok (n ∷ [])

decode_data-encode_control_frame_example :
    (bytes : List ℕ) × ((encode_control_frame byte_sum message idle keepalive 9 0).1 ≡ ok bytes)
    × (decode_data byte_sum idle bytes ≡ some (record idle { rx_buffer = bytes }, ok []))
decode_data-encode_control_frame_example =
    decode_data-encode_control_frame byte_sum message idle idle keepalive 9 0 (9 ∷ [])
      byte_sum-IsU32 refl (omega arith) (omega arith) refl
