-- ===== src/Codec/Tests.antt =====
-- A stream of two messages of LengthHeaderCodec, cut within the second.
use raner.Common.{ℕ, ◌≡◌, refl, false, List, [], ◌∷◌, ◌++◌, arith, ok}
use raner.Endian.{little}
use raner.Buffer.{ByteBuffer}
use raner.Buffer.Contents.{contents}
use raner.Buffer.Valid.{IsValid, Leaves}
use raner.Codec.{on_message, send}
use raner.Codec.Frames.{frames, AreShort, IsPartial}
use raner.Codec.Stream.{on_message-stream, send-frame}

abbrev cut_stream : ByteBuffer
cut_stream = record {
  buffer = 9 ∷ 0 ∷ 0 ∷ 0 ∷ 2 ∷ 5 ∷ 6 ∷ 0 ∷ 0 ∷ 0 ∷ 77 ∷ [];
  reader_index = 1;
  writer_index = 10;
}

abbrev missing : List ℕ
missing = 1 ∷ 7 ∷ []

abbrev two_messages : List (List ℕ)
two_messages = (5 ∷ 6 ∷ []) ∷ (7 ∷ []) ∷ []

on_message-stream_example :
    (first : List (List ℕ)) × (later : List (List ℕ)) × (b' : ByteBuffer) × (two_messages
      ≡ first ++ later)
    × (on_message 3 little cut_stream
        ≡ ok (record { messages = first; buffer = b'; refused = false }))
    × IsValid b'
    × IsPartial (contents b')
    × AreShort later
    × (contents b' ++ missing ≡ frames later)
on_message-stream_example =
    on_message-stream two_messages 3 little cut_stream missing
      (record { ordered = omega arith; inside = omega arith; small = omega arith })
      (omega arith, (omega arith, tt)) (omega arith) refl

send-frame_example : Leaves (0 ∷ 0 ∷ 0 ∷ 2 ∷ 5 ∷ 6 ∷ []) (send little (5 ∷ 6 ∷ []))
send-frame_example = send-frame little (5 ∷ 6 ∷ []) (omega arith)
