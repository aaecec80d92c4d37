-- ===== src/Protocol/Bytes.antt =====
-- Reading back what was written, number by number.
use puzzle_bubble.Prelude.{
  ℕ, ◌+◌, ◌*◌, ◌/◌, ◌%◌, ◌^◌, ◌<◌, ◌≡◌, refl, ap, arith, leb, true, List, [], ◌∷◌, ◌++◌, length,
  length-append, take, drop, get_or,
}
use puzzle_bubble.Protocol.{Packet, ok, magic, uint16, uint32, read_full, header_of}

split_16 : (n : ℕ) → n < 2 ^ 16 → (n / 256) % 256 * 256 + n % 256 ≡ n
split_16 n h = omega arith

split_32 :
    (n : ℕ)
    → n < 2 ^ 32
    → (n / 16777216) % 256 * 16777216 + (n / 65536) % 256 * 65536 + (n / 256) % 256 * 256 + n % 256
      ≡ n
split_32 n h = omega arith

take_append : (xs ys : List ℕ) → take (length xs) (xs ++ ys) ≡ xs
take_append [] ys = refl
take_append (x ∷ xs) ys = ap (λ (t : List ℕ). x ∷ t) (take_append xs ys)

drop_append : (xs ys : List ℕ) → drop (length xs) (xs ++ ys) ≡ ys
drop_append [] ys = refl
drop_append (x ∷ xs) ys = drop_append xs ys

pub read_full-append : (xs ys : List ℕ) → read_full (length xs) (xs ++ ys) ≡ ok (xs, ys)
unfolding read_full
read_full-append xs ys =
    let fits : leb (length xs) (length (xs ++ ys)) ≡ true = ground (arith, length-append xs ys) in
    rw (fits, take_append xs ys, drop_append xs ys) refl

module _ (p : Packet) where
  pub length-header_of : length (header_of p) ≡ 14
  unfolding header_of
  length-header_of = refl

  pub magic-header_of : uint16 (header_of p) 0 ≡ magic
  unfolding header_of uint16
  magic-header_of = refl

  pub version-header_of : get_or (header_of p) 2 0 ≡ 1
  unfolding header_of
  version-header_of = refl

  pub cmd-header_of : p.cmd < 2 ^ 16 → uint16 (header_of p) 4 ≡ p.cmd
  unfolding header_of uint16
  cmd-header_of h = split_16 p.cmd h

  pub seq-header_of : p.seq < 2 ^ 32 → uint32 (header_of p) 6 ≡ p.seq
  unfolding header_of uint32
  seq-header_of h = split_32 p.seq h

  pub size-header_of : length p.payload < 2 ^ 32 → uint32 (header_of p) 10 ≡ length p.payload
  unfolding header_of uint32
  size-header_of h = split_32 (length p.payload) h
