-- ===== src/Protocol.antt =====
-- internal/protocol/packet.go: the packets between client and gateway. A reader is the list of
-- the bytes that are still to come before the end of the stream; a byte is a number below 256.
pub mod Bytes
pub mod RoundTrip
mod Tests
use package.puzzle_bubble.Prelude.{
  ℕ, ◌+◌, ◌-◌, ◌*◌, ◌/◌, ◌%◌, ◌^◌, ltb, leb, ◌==◌, not, Bool, true, false, if◌then◌else◌, List, [],
  ◌∷◌, ◌++◌, length, take, drop, get_or,
}

-- `cmd` is a uint16 and `seq` a uint32.
pub record Packet : Type 0 where
  pub cmd : ℕ
  pub seq : ℕ
  pub payload : List ℕ

-- `eof` and `unexpected_eof` are those of io.ReadFull.
pub data Error : Type 0 where
  eof unexpected_eof bad_magic unsupported_version payload_too_large : Error

pub data Result (A : Type 0) : Type 0 where
  ok : A → Result A
  err : Error → Result A

abbrev pub header_size : ℕ
header_size = 14

-- 0xCAFE.
abbrev pub magic : ℕ
magic = 51966

abbrev pub version : ℕ
version = 1

-- `binary.BigEndian.PutUint16` and `PutUint32`.
pub put_uint16 : ℕ → List ℕ
put_uint16 n = (n / 256) % 256 ∷ n % 256 ∷ []

pub put_uint32 : ℕ → List ℕ
put_uint32 n = (n / 16777216) % 256 ∷ (n / 65536) % 256 ∷ (n / 256) % 256 ∷ n % 256 ∷ []

-- `binary.BigEndian.Uint16` and `Uint32` of the bytes from index `i` on.
pub uint16 : List ℕ → ℕ → ℕ
uint16 bs i = get_or bs i 0 * 256 + get_or bs (i + 1) 0

pub uint32 : List ℕ → ℕ → ℕ
uint32 bs i =
    get_or bs i 0 * 16777216
    + get_or bs (i + 1) 0 * 65536
    + get_or bs (i + 2) 0 * 256
    + get_or bs (i + 3) 0

-- `io.ReadFull` of `n` bytes: the bytes and the rest of the stream.
pub read_full : ℕ → List ℕ → Result (List ℕ × List ℕ)
read_full n bs =
    if leb n (length bs)
    then ok (take n bs, drop n bs)
    else if length bs == 0
    then err eof
    else err unexpected_eof

-- The packet, and the rest of the stream.
unfoldable pub read_packet : List ℕ → ℕ → Result (Packet × List ℕ)
read_packet r max_payload = elim (read_full header_size r) [
  | err e ↦ err e
  | ok (header, r') ↦
      if not (uint16 header 0 == magic)
      then err bad_magic
      else if not (get_or header 2 0 == version)
      then err unsupported_version
      else if ltb max_payload (uint32 header 10)
      then err payload_too_large
      else elim (read_full (uint32 header 10) r') [
        | err e ↦ err e
        | ok (payload, rest) ↦
            ok (record { cmd = uint16 header 4; seq = uint32 header 6; payload = payload }, rest)
      ]
]

-- The fourteen bytes before the payload; the fourth is reserved.
pub header_of : Packet → List ℕ
unfolding put_uint16 put_uint32
header_of p =
    put_uint16 magic
    ++ version ∷ 0 ∷ []
    ++ put_uint16 p.cmd
    ++ put_uint32 p.seq
    ++ put_uint32 (length p.payload)

-- The writer is a parameter: `write w bs` is the writer after the bytes were given to it, and
-- whether it took them. The result is the writer afterwards and whether all was written; an
-- error is that of the source or of the writer.
module _ {W : Type 0} (write : W → List ℕ → W × Bool) where
  pub data Written : Type 0 where
    done too_large failed : Written

  unfoldable pub write_packet : W → Packet → W × Written
  write_packet w p =
      if ltb (2 ^ 32 - 1) (length p.payload)
      then (w, too_large)
      else let (w₁, taken) = write w (header_of p) in
        if not taken
        then (w₁, failed)
        else if length p.payload == 0
        then (w₁, done)
        else let (w₂, taken₂) = write w₁ p.payload in if taken₂ then (w₂, done) else (w₂, failed)
