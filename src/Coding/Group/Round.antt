-- ===== src/Coding/Group/Round.antt =====
-- What the group decoders make of the bytes of the group encoders.
use mathlib.Core.List.{append_assoc}
use raleigh_fs.Common.{
  ℕ, ◌+◌, ◌-◌, ◌*◌, ◌%◌, ◌^◌, ◌<◌, ◌≤◌, some, List, ◌++◌, ◌≡◌, refl, sym, ap, arith,
}
use raleigh_fs.Coding.{uint32_size, uint64_size, encode_uint}
use raleigh_fs.Coding.Parts.{
  length-encode_uint, decode-encode_uint, drop-append, uint64_size_fits, uint64_size_range,
}
use raleigh_fs.Coding.Group.{
  fetch_2bit, fetch_3bit, read_uint, encode_4int, read_4int, decode_4int, encode_3int, read_3int,
  decode_3int,
}

-- An integer is read back from its bytes, and the rest is left.
read-encode_uint :
    (n value : ℕ) (rest : List ℕ)
    → value < 256 ^ n
    → read_uint n (encode_uint n value ++ rest) ≡ some (value, rest)
unfolding read_uint
read-encode_uint n value rest h =
    rw
      (
        read_uint,
        decode-encode_uint n value rest h,
        drop-append (encode_uint n value) rest n (sym (length-encode_uint n value)),
      )
      refl

uint32_fits : (value : ℕ) → value < 2 ^ 32 → value < 256 ^ uint32_size value
unfolding uint32_size
uint32_fits value h = ground arith

uint32_range : (value : ℕ) → (1 ≤ uint32_size value) × (uint32_size value ≤ 4)
unfolding uint32_size
uint32_range value = ground arith

-- The lengths in the head.
lengths_of_four :
    (la lb lc ld : ℕ)
    → (1 ≤ la) × (la ≤ 4)
    → (1 ≤ lb) × (lb ≤ 4)
    → (1 ≤ lc) × (lc ≤ 4)
    → (1 ≤ ld) × (ld ≤ 4)
    → let h = ((la - 1) * 64 + (lb - 1) * 16 + (lc - 1) * 4 + (ld - 1)) % 256 in
      (1 + fetch_2bit h 64 ≡ la)
      × (1 + fetch_2bit h 16 ≡ lb)
      × (1 + fetch_2bit h 4 ≡ lc)
      × (1 + fetch_2bit h 1 ≡ ld)
lengths_of_four la lb lc ld ha hb hc hd = (omega arith, omega arith, omega arith, omega arith)

lengths_of_three :
    (la lb lc : ℕ)
    → (1 ≤ la) × (la ≤ 8)
    → (1 ≤ lb) × (lb ≤ 8)
    → (1 ≤ lc) × (lc ≤ 4)
    → let h = ((la - 1) * 32 + (lb - 1) * 4 + (lc - 1)) % 256 in
      (1 + fetch_3bit h 32 ≡ la) × (1 + fetch_3bit h 4 ≡ lb) × (1 + fetch_2bit h 1 ≡ lc)
lengths_of_three la lb lc ha hb hc = (omega arith, omega arith, omega arith)

read_4int_lem :
    (la lb lc ld a b c d : ℕ) (rest : List ℕ)
    → a < 256 ^ la
    → b < 256 ^ lb
    → c < 256 ^ lc
    → d < 256 ^ ld
    → read_4int la lb lc ld
        (encode_uint la a ++ (encode_uint lb b ++ (encode_uint lc c ++ (encode_uint ld d ++ rest))))
      ≡ some (1 + (la + lb + lc + ld), a, b, c, d)
unfolding read_4int
read_4int_lem la lb lc ld a b c d rest ha hb hc hd =
    rw
      (
        read_4int,
        read-encode_uint la a (encode_uint lb b ++ (encode_uint lc c ++ (encode_uint ld d ++ rest)))
            ha,
        read-encode_uint lb b (encode_uint lc c ++ (encode_uint ld d ++ rest)) hb,
        read-encode_uint lc c (encode_uint ld d ++ rest) hc,
        read-encode_uint ld d rest hd,
      )
      refl

decode-encode_4int :
    (a b c d : ℕ) (rest : List ℕ)
    → a < 2 ^ 32
    → b < 2 ^ 32
    → c < 2 ^ 32
    → d < 2 ^ 32
    → decode_4int ((encode_4int a b c d).1 ++ rest) ≡ some ((encode_4int a b c d).0, a, b, c, d)
unfolding decode_4int encode_4int
decode-encode_4int a b c d rest ha hb hc hd =
    let la = uint32_size a in
    let lb = uint32_size b in
    let lc = uint32_size c in
    let ld = uint32_size d in
    let (ea, eb, ec, ed) =
      lengths_of_four la lb lc ld (uint32_range a) (uint32_range b) (uint32_range c)
        (uint32_range d) in
    rw
      (
        decode_4int,
        encode_4int,
        append_assoc (encode_uint la a) (encode_uint lb b ++ (encode_uint lc c ++ encode_uint ld d))
            rest,
        append_assoc (encode_uint lb b) (encode_uint lc c ++ encode_uint ld d) rest,
        append_assoc (encode_uint lc c) (encode_uint ld d) rest,
        ea,
        eb,
        ec,
        ed,
        read_4int_lem la lb lc ld a b c d rest (uint32_fits a ha) (uint32_fits b hb)
            (uint32_fits c hc) (uint32_fits d hd),
      )
      (ap (λ n. some (n, a, b, c, d)) (omega arith))

read_3int_lem :
    (la lb lc a b c : ℕ) (rest : List ℕ)
    → a < 256 ^ la
    → b < 256 ^ lb
    → c < 256 ^ lc
    → read_3int la lb lc (encode_uint la a ++ (encode_uint lb b ++ (encode_uint lc c ++ rest)))
      ≡ some (1 + (la + lb + lc), a, b, c)
unfolding read_3int
read_3int_lem la lb lc a b c rest ha hb hc =
    rw
      (
        read_3int,
        read-encode_uint la a (encode_uint lb b ++ (encode_uint lc c ++ rest)) ha,
        read-encode_uint lb b (encode_uint lc c ++ rest) hb,
        read-encode_uint lc c rest hc,
      )
      refl

decode-encode_3int :
    (a b c : ℕ) (rest : List ℕ)
    → a < 2 ^ 64
    → b < 2 ^ 64
    → c < 2 ^ 32
    → decode_3int ((encode_3int a b c).1 ++ rest) ≡ some ((encode_3int a b c).0, a, b, c)
unfolding decode_3int encode_3int
decode-encode_3int a b c rest ha hb hc =
    let la = uint64_size a in
    let lb = uint64_size b in
    let lc = uint32_size c in
    let (ea, eb, ec) =
      lengths_of_three la lb lc (uint64_size_range a) (uint64_size_range b) (uint32_range c) in
    rw
      (
        decode_3int,
        encode_3int,
        append_assoc (encode_uint la a) (encode_uint lb b ++ encode_uint lc c) rest,
        append_assoc (encode_uint lb b) (encode_uint lc c) rest,
        ea,
        eb,
        ec,
        read_3int_lem la lb lc a b c rest (uint64_size_fits a ha) (uint64_size_fits b hb)
            (uint32_fits c hc),
      )
      (ap (λ n. some (n, a, b, c)) (omega arith))

-- Four 32-bit integers, and two 64-bit ones with a 32-bit one, come back from the bytes that they
-- are encoded in, whatever follows these, and the decoder returns the size that the encoder did.
pub decode-encode_group :
    (a b c d p q r : ℕ) (rest : List ℕ)
    → a < 2 ^ 32
    → b < 2 ^ 32
    → c < 2 ^ 32
    → d < 2 ^ 32
    → p < 2 ^ 64
    → q < 2 ^ 64
    → r < 2 ^ 32
    → (decode_4int ((encode_4int a b c d).1 ++ rest) ≡ some ((encode_4int a b c d).0, a, b, c, d))
      × (decode_3int ((encode_3int p q r).1 ++ rest) ≡ some ((encode_3int p q r).0, p, q, r))
decode-encode_group a b c d p q r rest ha hb hc hd hp hq hr =
    (decode-encode_4int a b c d rest ha hb hc hd, decode-encode_3int p q r rest hp hq hr)
