-- ===== src/Ups/Wire.antt =====
-- sendMesgTo and recvMesgFrom of message.hpp: project5_miniUPS/docker-deploy/backend.
use duke_ece.Prelude.{
  ℕ, zero, suc, ◌^◌, ◌<◌, ◌≡◌, ◌≢◌, List, [], ◌∷◌, ◌++◌, Option, some, none, length, leb, ltb,
  if◌then◌else◌,
}

abbrev pub Bytes : Type 0
Bytes = List ℕ

-- What ReadVarint32 makes of the bytes that it has: a size and the bytes behind it, the wish for more,
-- or a failure.
pub data Varint : Type 0 where
  size : ℕ → Bytes → Varint
  more bad : Varint

-- What the code takes from the protobuf library for one type of message: WriteVarint32, which writes a
-- byte at least, and ReadVarint32, of which the second reads back what the first has written and asks for more where only
-- a part of that is there; and the bytes of a message, from which the message is parsed again.
pub record Protobuf (M : Type 0) : Type 0 where
  pub write_varint : ℕ → Bytes
  pub read_varint : Bytes → Varint
  pub serialize : M → Bytes
  pub parse : Bytes → Option M
  pub read-write :
      (n : ℕ) (rest : Bytes) → n < 2 ^ 32 → read_varint (write_varint n ++ rest) ≡ size n rest
  pub read-part :
      (n : ℕ) (part rest : Bytes)
      → n < 2 ^ 32
      → write_varint n ≡ part ++ rest
      → rest ≢ []
      → read_varint part ≡ more
  pub written : (n : ℕ) → write_varint n ≢ []
  pub parse-serialize : (m : M) → parse (serialize m) ≡ some m

-- What a socket brings until it is closed, as the blocks that the calls of `read` give, one for each.
abbrev pub Stream : Type 0
Stream = List Bytes

unfoldable pub take : ℕ → Bytes → Bytes
take zero s = []
take (suc n) [] = []
take (suc n) (c ∷ s) = c ∷ take n s

unfoldable pub all_bytes : Stream → Bytes
all_bytes [] = []
all_bytes (block ∷ blocks) = block ++ all_bytes blocks

module _ {M : Type 0} (pb : Protobuf M) where
  -- sendMesgTo.
  unfoldable pub send_mesg_to : M → Bytes
  send_mesg_to m = pb.write_varint (length (pb.serialize m)) ++ pb.serialize m

  -- MergeFromCodedStream under PushLimit, with the bytes that are held: a stream that ends before the
  -- limit is no entire message.
  unfoldable pub read_body : ℕ → Bytes → Stream → Option M × Stream
  read_body n held [] = (if leb n (length held) then pb.parse (take n held) else none, [])
  read_body n held (block ∷ blocks) =
      let later = read_body n (held ++ block) blocks in
      if leb n (length held) then (pb.parse (take n held), block ∷ blocks) else later

  -- A size from 2 ^ 31 on is a negative limit, which sets none.
  unfoldable pub read_message : ℕ → Bytes → Stream → Option M × Stream
  read_message n held blocks =
      if ltb n (2 ^ 31) then read_body n held blocks else (pb.parse (held ++ all_bytes blocks), [])

  -- ReadVarint32, then the message.
  unfoldable pub read_size : Bytes → Stream → Option M × Stream
  read_size held [] = elim (pb.read_varint held) [
    | size n rest ↦ read_message n rest []
    | more ↦ (none, [])
    | bad ↦ (none, [])
  ]
  read_size held (block ∷ blocks) =
      let later = read_size (held ++ block) blocks in
      elim (pb.read_varint held) [
        | size n rest ↦ read_message n rest (block ∷ blocks)
        | more ↦ later
        | bad ↦ (none, block ∷ blocks)
      ]

  -- recvMesgFrom on a new FileInputStream: what a block holds behind the message goes with the stream
  -- object.
  unfoldable pub recv_mesg_from : Stream → Option M × Stream
  recv_mesg_from blocks = read_size [] blocks
