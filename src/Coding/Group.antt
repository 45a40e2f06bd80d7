-- ===== src/Coding/Group.antt =====
-- src/zcl/io/coding/coding-int-group.c: four 32-bit integers, or two 64-bit ones and a 32-bit one,
-- behind a byte with their lengths.
pub mod Round
use mathlib.Core.List.{append_assoc}
use raleigh_fs.Common.{
  ℕ, ◌+◌, ◌-◌, ◌*◌, ◌/◌, ◌%◌, ◌^◌, ◌<◌, ◌≤◌, Option, none, some, List, [], ◌∷◌, ◌++◌, drop, length,
  length-append, ltb, if◌then◌else◌, ◌≡◌, refl, sym, ap, ◌∙◌, arith,
}
use raleigh_fs.Coding.{uint32_size, uint64_size, encode_uint, decode_uint}
use raleigh_fs.Coding.Parts.{
  length-encode_uint, decode-encode_uint, drop-append, uint64_size_fits, uint64_size_range,
}

-- `z_fetch_2bit` and `z_fetch_3bit`, with `2 ^ pos`
abbrev pub fetch_2bit : ℕ → ℕ → ℕ
fetch_2bit byte p = byte / p % 4

abbrev pub fetch_3bit : ℕ → ℕ → ℕ
fetch_3bit byte p = byte / p % 8

-- `z_decode_uint32` or `z_decode_uint64`, and `buf += length`
unfoldable pub read_uint : ℕ → List ℕ → Option (ℕ × List ℕ)
unfolding decode_uint
read_uint n buf = elim (decode_uint n buf) [ none ↦ none | some v ↦ some (v, drop n buf) ]

-- `z_encode_4int`: the size returned, and the bytes
unfoldable pub encode_4int : ℕ → ℕ → ℕ → ℕ → ℕ × List ℕ
encode_4int a b c d =
    let la = uint32_size a in
    let lb = uint32_size b in
    let lc = uint32_size c in
    let ld = uint32_size d in
    let head = ((la - 1) * 64 + (lb - 1) * 16 + (lc - 1) * 4 + (ld - 1)) % 256 in
    (
      1 + la + lb + lc + ld,
      head ∷ encode_uint la a ++ (encode_uint lb b ++ (encode_uint lc c ++ encode_uint ld d)),
    )

-- `z_decode_4int`, from the lengths of its head on, and whole: the size returned, and the integers
unfoldable pub read_4int : ℕ → ℕ → ℕ → ℕ → List ℕ → Option (ℕ × ℕ × ℕ × ℕ × ℕ)
read_4int la lb lc ld buf = elim (read_uint la buf) [
  | none ↦ none
  | some (a, buf1) ↦ elim (read_uint lb buf1) [
    | none ↦ none
    | some (b, buf2) ↦ elim (read_uint lc buf2) [
      | none ↦ none
      | some (c, buf3) ↦ elim (read_uint ld buf3) [
        | none ↦ none
        | some (d, buf4) ↦ some (1 + (la + lb + lc + ld), a, b, c, d)
      ]
    ]
  ]
]

unfoldable pub decode_4int : List ℕ → Option (ℕ × ℕ × ℕ × ℕ × ℕ)
decode_4int [] = none
decode_4int (h ∷ buf) =
    read_4int (1 + fetch_2bit h 64) (1 + fetch_2bit h 16) (1 + fetch_2bit h 4) (1 + fetch_2bit h 1)
      buf

-- `z_encode_3int`
unfoldable pub encode_3int : ℕ → ℕ → ℕ → ℕ × List ℕ
encode_3int a b c =
    let la = uint64_size a in
    let lb = uint64_size b in
    let lc = uint32_size c in
    let head = ((la - 1) * 32 + (lb - 1) * 4 + (lc - 1)) % 256 in
    (1 + la + lb + lc, head ∷ encode_uint la a ++ (encode_uint lb b ++ encode_uint lc c))

-- `z_decode_3int`
unfoldable pub read_3int : ℕ → ℕ → ℕ → List ℕ → Option (ℕ × ℕ × ℕ × ℕ)
read_3int la lb lc buf = elim (read_uint la buf) [
  | none ↦ none
  | some (a, buf1) ↦ elim (read_uint lb buf1) [
    | none ↦ none
    | some (b, buf2) ↦ elim (read_uint lc buf2) [
      | none ↦ none
      | some (c, buf3) ↦ some (1 + (la + lb + lc), a, b, c)
    ]
  ]
]

unfoldable pub decode_3int : List ℕ → Option (ℕ × ℕ × ℕ × ℕ)
decode_3int [] = none
decode_3int (h ∷ buf) =
    read_3int (1 + fetch_3bit h 32) (1 + fetch_3bit h 4) (1 + fetch_2bit h 1) buf
