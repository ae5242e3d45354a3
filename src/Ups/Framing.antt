-- ===== src/Ups/Framing.antt =====
-- Messages sent by sendMesgTo and received by recvMesgFrom, message.hpp:
-- project5_miniUPS/docker-deploy/backend.
use mathlib.Core.List.{append-nil, append_assoc}
use duke_ece.Prelude.{
  ℕ, ◌^◌, ◌<◌, ◌≡◌, ◌≢◌, ◌∙◌, ◌⊎◌, refl, sym, ap, true, false, [], ◌∷◌, ◌++◌, some, length,
  length-append, leb, ltb, arith, inl, inr, All,
}
use duke_ece.Ups.Wire.{
  Bytes, size, more, Protobuf, Stream, take, all_bytes, send_mesg_to, read_body, read_message,
  read_size, recv_mesg_from,
}

tail-eq : {c d : ℕ} {s t : Bytes} → c ∷ s ≡ d ∷ t → s ≡ t
tail-eq e = cc

-- Two texts with one beginning: the first is a proper part of the second's start, or goes on behind it.
split :
    (held rest start end : Bytes)
    → held ++ rest ≡ start ++ end
    → ((q : Bytes) × (start ≡ held ++ q) × (q ≢ []) × (rest ≡ q ++ end))
      ⊎ ((r : Bytes) × (held ≡ start ++ r) × (r ++ rest ≡ end))
split held rest [] end e = inr (held, refl, e)
split [] rest (c ∷ start) end e = inl (c ∷ start, refl, λ h. cc, e)
split (d ∷ held) rest (c ∷ start) end e =
    let same : c ≡ d = cc in
    elim (split held rest start end (tail-eq e)) [
      | inl (q, p, ne, x) ↦ inl (q, ap (λ k. k ∷ start) same ∙ ap (◌∷◌ d) p, ne, x)
      | inr (r, p, x) ↦ inr (r, ap (λ k. k ∷ held) (sym same) ∙ ap (◌∷◌ c) p, x)
    ]

take-append : (s rest : Bytes) → take (length s) (s ++ rest) ≡ s
unfolding take
take-append [] rest = refl
take-append (c ∷ s) rest = ap (◌∷◌ c) (take-append s rest)

-- No call of `read` gives an empty block before the end.
abbrev pub Blocks : Stream → Type 0
Blocks blocks = All (λ block. 0 < length block) blocks

no_part : (q s : Bytes) → q ≢ [] → ¬ ([] ≡ q ++ s)
no_part [] s ne e = ne refl
no_part (c ∷ q) s ne e = cc

module _ {M : Type 0} (pb : Protobuf M) where
  read_body-full :
      (n : ℕ) (held : Bytes) (s : Stream)
      → leb n (length held) ≡ true
      → read_body pb n held s ≡ (pb.parse (take n held), s)
  unfolding read_body
  read_body-full n held [] e = rw e refl
  read_body-full n held (block ∷ blocks) e = rw e refl

  read_body-short :
      (n : ℕ) (held block : Bytes) (blocks : Stream)
      → leb n (length held) ≡ false
      → read_body pb n held (block ∷ blocks) ≡ read_body pb n (held ++ block) blocks
  unfolding read_body
  read_body-short n held block blocks e = rw e refl

  read_body-whole :
      (m : M) (body held : Bytes) (blocks later : Stream)
      → Blocks blocks
      → held ++ all_bytes blocks ≡ body
      → pb.parse body ≡ some m
      → read_body pb (length body) held (blocks ++ later) ≡ (some m, later)
  unfolding all_bytes
  read_body-whole m body held [] later h e p =
      let whole : held ≡ body = sym (append-nil held) ∙ e in
      let enough : leb (length body) (length held) ≡ true = ground (arith, ap length whole) in
      read_body-full (length body) held later enough
      ∙ ap (λ s. (pb.parse (take (length body) s), later)) whole
      ∙ ap (λ s. (pb.parse s, later))
          (ap (take (length body)) (sym (append-nil body)) ∙ take-append body [])
      ∙ ap (λ o. (o, later)) p
  read_body-whole m body held (block ∷ blocks) later (some_bytes, h) e p =
      let total = ap length e in
      let short : leb (length body) (length held) ≡ false = ground (
        arith,
        total,
        length-append held (block ++ all_bytes blocks),
        length-append block (all_bytes blocks),
      ) in
      read_body-short (length body) held block (blocks ++ later) short
      ∙ read_body-whole m body (held ++ block) blocks later h
          (append_assoc held block (all_bytes blocks) ∙ e) p

  read_size-sized :
      (n : ℕ) (held rest : Bytes) (s : Stream)
      → pb.read_varint held ≡ size n rest
      → read_size pb held s ≡ read_message pb n rest s
  unfolding read_size
  read_size-sized n held rest [] e = rw (e, read_size) refl
  read_size-sized n held rest (block ∷ blocks) e = rw (e, read_size) refl

  read_size-more :
      (held block : Bytes) (blocks : Stream)
      → pb.read_varint held ≡ more
      → read_size pb held (block ∷ blocks) ≡ read_size pb (held ++ block) blocks
  unfolding read_size
  read_size-more held block blocks e = rw (e, read_size) refl

  read_message-limit :
      (n : ℕ) (held : Bytes) (s : Stream)
      → n < 2 ^ 31
      → read_message pb n held s ≡ read_body pb n held s
  unfolding read_message
  read_message-limit n held s h = let limit : ltb n (2 ^ 31) ≡ true = ground arith in rw limit refl

  module _ (m : M) (small : length (pb.serialize m) < 2 ^ 31) where
    -- The size is there.
    sized-whole :
        (held r : Bytes) (blocks later : Stream)
        → Blocks blocks
        → held ≡ pb.write_varint (length (pb.serialize m)) ++ r
        → r ++ all_bytes blocks ≡ pb.serialize m
        → read_size pb held (blocks ++ later) ≡ (some m, later)
    sized-whole held r blocks later h p x =
        let n = length (pb.serialize m) in
        read_size-sized n held r (blocks ++ later)
          (ap pb.read_varint p ∙ pb.read-write n r (omega arith))
        ∙ read_message-limit n r (blocks ++ later) small
        ∙ read_body-whole m (pb.serialize m) r blocks later h x (pb.parse-serialize m)

    read_size-whole :
        (held : Bytes) (blocks later : Stream)
        → Blocks blocks
        → held ++ all_bytes blocks ≡ send_mesg_to pb m
        → read_size pb held (blocks ++ later) ≡ (some m, later)
    unfolding all_bytes send_mesg_to
    read_size-whole held [] later h e =
        elim (split held [] (pb.write_varint (length (pb.serialize m))) (pb.serialize m) e) [
          | inr (r, p, x) ↦ sized-whole held r [] later h p x
          | inl (q, p, ne, x) ↦ absurd (no_part q (pb.serialize m) ne x)
        ]
    read_size-whole held (block ∷ blocks) later (some_bytes, h) e =
        elim (split held (block ++ all_bytes blocks) (pb.write_varint (length (pb.serialize m)))
          (pb.serialize m) e) [
            | inr (r, p, x) ↦ sized-whole held r (block ∷ blocks) later (some_bytes, h) p x
            | inl (q, p, ne, x) ↦
                read_size-more held block (blocks ++ later)
                  (pb.read-part (length (pb.serialize m)) held q (omega arith) p ne)
                ∙ read_size-whole (held ++ block) blocks later h
                    (append_assoc held block (all_bytes blocks) ∙ e)
          ]

-- A message is received as it was sent, however `read` cuts it into blocks, where its last block ends
-- with it; what comes later is left for the next call.
pub recv_mesg_from-send_mesg_to :
    {M : Type 0} (pb : Protobuf M) (m : M) (blocks later : Stream)
    → length (pb.serialize m) < 2 ^ 31
    → Blocks blocks
    → all_bytes blocks ≡ send_mesg_to pb m
    → recv_mesg_from pb (blocks ++ later) ≡ (some m, later)
unfolding recv_mesg_from
recv_mesg_from-send_mesg_to pb m blocks later small h e =
    read_size-whole pb m small [] blocks later h e

-- Bytes that come in one block with the end of a message are lost: if two messages arrive together, the
-- first is received, and the next call reads on behind the second.
pub recv_mesg_from_loses :
    {M : Type 0} (pb : Protobuf M) (first second : M) (later : Stream)
    → length (pb.serialize first) < 2 ^ 31
    → recv_mesg_from pb ((send_mesg_to pb first ++ send_mesg_to pb second) ∷ later)
      ≡ (some first, later)
unfolding recv_mesg_from
recv_mesg_from_loses pb first second later small =
    let body = pb.serialize first in
    let n = length body in
    let next = send_mesg_to pb second in
    let enough : leb n (length (body ++ next)) ≡ true = ground (arith, length-append body next) in
    read_size-more pb [] (send_mesg_to pb first ++ next) later
      (pb.read-part n [] (pb.write_varint n) (omega arith) refl (pb.written n))
    ∙ read_size-sized pb n (send_mesg_to pb first ++ next) (body ++ next) later (
        unfold send_mesg_to in
        ap pb.read_varint (append_assoc (pb.write_varint n) body next)
        ∙ pb.read-write n (body ++ next) (omega arith))
    ∙ read_message-limit pb n (body ++ next) later small
    ∙ read_body-full pb n (body ++ next) later enough
    ∙ ap (λ s. (pb.parse s, later)) (take-append body next)
    ∙ ap (λ o. (o, later)) (pb.parse-serialize first)
