-- ===== src/Protocol/RoundTrip.antt =====
-- What `WritePacket` writes `ReadPacket` reads back.
use puzzle_bubble.Prelude.{
  ℕ, ◌-◌, ◌^◌, ◌≤◌, ◌<◌, ◌≡◌, refl, sym, ap, ◌∙◌, inl, inr, arith, ltb, ◌==◌, Bool, true, false,
  Bool-cases, List, [], ◌∷◌, ◌++◌, length,
}
use mathlib.Core.List.{append_assoc, append-nil}
use puzzle_bubble.Protocol.{
  Packet, ok, err, payload_too_large, read_full, read_packet, header_of, done, write_packet,
}
use puzzle_bubble.Protocol.Bytes.{
  read_full-append, length-header_of, magic-header_of, version-header_of, cmd-header_of,
  seq-header_of, size-header_of,
}

-- A buffer, which takes all that it is given.
abbrev pub append : List ℕ → List ℕ → List ℕ × Bool
append w bs = (w ++ bs, true)

-- The bytes that go out for a packet.
pub write_packet-append :
    (w : List ℕ) (p : Packet)
    → length p.payload < 2 ^ 32
    → write_packet append w p ≡ (w ++ (header_of p ++ p.payload), done)
unfolding write_packet
write_packet-append w p h =
    let small : ltb (2 ^ 32 - 1) (length p.payload) ≡ false = ground arith in
    elim (Bool-cases (length p.payload == 0)) [
      | inl bare ↦
          rw (small, bare)
            (ap (λ (t : List ℕ). (w ++ t, done))
              (sym (
                ap (λ (t : List ℕ). header_of p ++ t) (bare_payload p.payload bare)
                ∙ append-nil (header_of p))))
      | inr more ↦ rw (small, more, append_assoc w (header_of p) p.payload) refl
    ]
  where
    bare_payload : (bs : List ℕ) → (length bs == 0) ≡ true → bs ≡ []
    bare_payload [] e = refl
    bare_payload (b ∷ bs) e = absurd (ground arith)

header_read :
    (p : Packet) (rest : List ℕ) → read_full 14 (header_of p ++ rest) ≡ ok (header_of p, rest)
header_read p rest = rw (length-header_of p) at (read_full-append (header_of p) rest)

read_written :
    (p : Packet) (rest : List ℕ) (max_payload : ℕ)
    → p.cmd < 2 ^ 16
    → p.seq < 2 ^ 32
    → length p.payload ≤ max_payload
    → max_payload < 2 ^ 32
    → read_packet (header_of p ++ (p.payload ++ rest)) max_payload ≡ ok (p, rest)
unfolding read_packet
read_written p rest max_payload hc hs hp hm =
    let fits : ltb max_payload (length p.payload) ≡ false = ground arith in
    rw
      (
        read_packet,
        header_read p (p.payload ++ rest),
        magic-header_of p,
        version-header_of p,
        size-header_of p (omega arith),
        fits,
        read_full-append p.payload rest,
        cmd-header_of p hc,
        seq-header_of p hs,
      )
      refl

-- What `WritePacket` writes to a buffer for a packet, whose command is a uint16 and whose sequence
-- number is a uint32, `ReadPacket` reads back, whatever follows it in the stream, if the
-- payload is no longer than the reader's limit; what follows is left to be read.
pub read_packet-write_packet :
    (p : Packet) (rest : List ℕ) (max_payload : ℕ)
    → p.cmd < 2 ^ 16
    → p.seq < 2 ^ 32
    → length p.payload ≤ max_payload
    → max_payload < 2 ^ 32
    → ((write_packet append [] p).1 ≡ done)
      × (read_packet ((write_packet append [] p).0 ++ rest) max_payload ≡ ok (p, rest))
read_packet-write_packet p rest max_payload hc hs hp hm =
    rw (write_packet-append [] p (omega arith), append_assoc (header_of p) p.payload rest)
      (refl, read_written p rest max_payload hc hs hp hm)

-- A packet whose payload is longer than the reader's limit is refused, whatever follows it.
pub read_packet-write_packet_too_large :
    (p : Packet) (rest : List ℕ) (max_payload : ℕ)
    → max_payload < length p.payload
    → length p.payload < 2 ^ 32
    → read_packet ((write_packet append [] p).0 ++ rest) max_payload ≡ err payload_too_large
unfolding read_packet
read_packet-write_packet_too_large p rest max_payload over small =
    let big : ltb max_payload (length p.payload) ≡ true = ground arith in
    rw
      (
        write_packet-append [] p small,
        append_assoc (header_of p) p.payload rest,
        read_packet,
        header_read p (p.payload ++ rest),
        magic-header_of p,
        version-header_of p,
        size-header_of p small,
        big,
      )
      refl
