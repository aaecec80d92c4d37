-- ===== src/Protocol/Tests.antt =====
-- Packets on the wire.
use puzzle_bubble.Prelude.{◌≡◌, refl, arith, [], ◌∷◌, ◌++◌}
use puzzle_bubble.Protocol.{
  Packet, ok, err, eof, unexpected_eof, unsupported_version, payload_too_large, done, read_packet,
  write_packet, header_of, read_full, uint16,
}
use puzzle_bubble.Protocol.RoundTrip.{
  append, read_packet-write_packet, read_packet-write_packet_too_large,
}

-- A game message with two bytes.
abbrev message : Packet
message = record { cmd = 2001; seq = 258; payload = 7 ∷ 9 ∷ [] }

on_the_wire :
    write_packet append [] message
    ≡ (202 ∷ 254 ∷ 1 ∷ 0 ∷ 7 ∷ 209 ∷ 0 ∷ 0 ∷ 1 ∷ 2 ∷ 0 ∷ 0 ∷ 0 ∷ 2 ∷ 7 ∷ 9 ∷ [], done)
unfolding write_packet header_of
on_the_wire = refl

no_bytes : read_packet [] 100 ≡ err eof
unfolding read_packet read_full
no_bytes = refl

cut_off : read_packet (202 ∷ 254 ∷ []) 100 ≡ err unexpected_eof
unfolding read_packet read_full
cut_off = refl

other_version :
    read_packet (202 ∷ 254 ∷ 2 ∷ 0 ∷ 0 ∷ 0 ∷ 0 ∷ 0 ∷ 0 ∷ 0 ∷ 0 ∷ 0 ∷ 0 ∷ 0 ∷ []) 100
    ≡ err unsupported_version
unfolding read_packet read_full uint16
other_version = refl

read_packet-write_packet_example :
    ((write_packet append [] message).1 ≡ done)
    × (read_packet ((write_packet append [] message).0 ++ 202 ∷ []) 100 ≡ ok (message, 202 ∷ []))
read_packet-write_packet_example =
    read_packet-write_packet message (202 ∷ []) 100 (omega arith) (omega arith) (omega arith)
      (omega arith)

read_packet-write_packet_too_large_example :
    read_packet ((write_packet append [] message).0 ++ []) 1 ≡ err payload_too_large
read_packet-write_packet_too_large_example =
    read_packet-write_packet_too_large message [] 1 (omega arith) (omega arith)
