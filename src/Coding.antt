-- ===== src/Coding.antt =====
-- src/zcl/io/coding/coding-int.c, coding-field.c and coding.h: variable-length integers, unsigned
-- integers of a given length, and the head of a field in a message.
--
-- A buffer is the list of its bytes from the pointer on, and reading past its end is `none`. An
-- encoder is the list of the bytes that it writes. Where `|` joins bits that do not overlap it is a
-- sum. `z_encode_uint` and `z_decode_uint…` are the copies of a little-endian machine.
pub mod Rounds
pub mod Vint
pub mod Parts
pub mod Field
pub mod Group
mod Tests
use raleigh_fs.Common.{
  ℕ, zero, suc, ◌+◌, ◌-◌, ◌*◌, ◌/◌, ◌%◌, ◌^◌, ◌&&◌, Option, none, some, List, [], ◌∷◌, ◌++◌, drop,
  length, ◌==◌, ltb, leb, if◌then◌else◌,
}

-- `z_uint32_size`
unfoldable pub uint32_size : ℕ → ℕ
uint32_size value =
    if ltb value (2 ^ 8)
    then 1
    else if ltb value (2 ^ 16)
    then 2
    else if ltb value (2 ^ 24)
    then 3
    else 4

-- `z_uint64_size`
unfoldable pub uint64_size : ℕ → ℕ
unfolding uint32_size
uint64_size value =
    if ltb value (2 ^ 32)
    then uint32_size value
    else if ltb value (2 ^ 40)
    then 5
    else if ltb value (2 ^ 48)
    then 6
    else if ltb value (2 ^ 56)
    then 7
    else 8

-- `z_vint_size`
unfoldable pub vint_size : ℕ → ℕ
vint_size value =
    if ltb value (2 ^ 35)
    then (if ltb value (2 ^ 7)
        then 1
        else if ltb value (2 ^ 14)
        then 2
        else if ltb value (2 ^ 21)
        then 3
        else if ltb value (2 ^ 28)
        then 4
        else 5)
    else if ltb value (2 ^ 42)
    then 6
    else if ltb value (2 ^ 49)
    then 7
    else if ltb value (2 ^ 56)
    then 8
    else if ltb value (2 ^ 63)
    then 9
    else 10

-- the loop of `z_encode_vint`: the size returned, and the bytes. `none` is a loop out of fuel.
unfoldable pub encode_vint_from : ℕ → ℕ → ℕ → Option (ℕ × List ℕ)
encode_vint_from zero size value = none
encode_vint_from (suc fuel) size value =
    let rest = encode_vint_from fuel (size + 1) (value / 128) in
    if leb 128 value
    then elim rest [ none ↦ none | some (n, bytes) ↦ some (n, (value % 128 + 128) ∷ bytes) ]
    else some (size, value % 128 ∷ [])

-- `z_encode_vint`: a 64-bit value takes at most ten rounds.
unfoldable pub encode_vint : ℕ → Option (ℕ × List ℕ)
unfolding encode_vint_from
encode_vint value = encode_vint_from 10 1 value

-- How a decoder ends: `short` with the number of bytes that it would need, 0 where it does not say.
pub data Decoded (A : Type 0) : Type 0 where
  short : ℕ → Decoded A
  decoded : ℕ → A → Decoded A

-- the loop of `z_decode_vint`
unfoldable pub decode_vint_from : List ℕ → ℕ → ℕ → ℕ → ℕ → Option (Decoded ℕ)
decode_vint_from [] buflen shift count result =
    if leb shift 63 && ltb count buflen then none else some (Decoded.short 0)
decode_vint_from (b ∷ buf) buflen shift count result =
    let rest =
      decode_vint_from buf buflen (shift + 7) (count + 1) (result + b % 128 * 2 ^ shift % 2 ^ 64) in
    if leb shift 63 && ltb count buflen
    then (if leb 128 b
        then rest
        else some (Decoded.decoded (count + 1) (result + b * 2 ^ shift % 2 ^ 64)))
    else some (Decoded.short 0)

-- `z_decode_vint`
unfoldable pub decode_vint : List ℕ → ℕ → Option (Decoded ℕ)
unfolding decode_vint_from
decode_vint buf buflen = decode_vint_from buf buflen 0 0 0

-- `z_encode_uint` and `z_decode_uint64`
unfoldable pub encode_uint : ℕ → ℕ → List ℕ
encode_uint zero value = []
encode_uint (suc n) value = value % 256 ∷ encode_uint n (value / 256)

unfoldable pub decode_uint : ℕ → List ℕ → Option ℕ
decode_uint zero buf = some 0
decode_uint (suc n) [] = none
decode_uint (suc n) (b ∷ buf) = elim (decode_uint n buf) [
  | none ↦ none
  | some value ↦ some (b + value * 256)
]

-- `z_encode_field`: the length's part of the head, the bytes of an external length, the id's part
-- of the head, and the bytes of an external id
unfoldable pub length_head : ℕ → ℕ
unfolding uint64_size
length_head len =
    if leb len 8 then (len + 2 ^ 64 - 1) % 8 * 16 else 128 + (uint64_size len - 1) % 8 * 16

unfoldable pub length_bytes : ℕ → List ℕ
unfolding uint64_size encode_uint
length_bytes len = if leb len 8 then [] else encode_uint (uint64_size len) len

unfoldable pub id_head : ℕ → ℕ
unfolding uint32_size
id_head id = if leb id 13 then id + 2 else uint32_size id - 1

unfoldable pub id_bytes : ℕ → List ℕ
unfolding uint32_size encode_uint
id_bytes id = if leb id 13 then [] else encode_uint (uint32_size id) id

unfoldable pub encode_field : ℕ → ℕ → List ℕ
encode_field id len = (length_head len + id_head id) ∷ (length_bytes len ++ id_bytes id)

-- `z_encoded_field_length`
unfoldable pub encoded_field_length : ℕ → ℕ → ℕ
unfolding uint64_size uint32_size
encoded_field_length id len =
    1 + (if leb len 8 then 0 else uint64_size len) + (if leb id 13 then 0 else uint32_size id)

-- the second half of `z_decode_field`: the id, `elength` bytes being read and `flen1` in the head
unfoldable pub decode_id : List ℕ → ℕ → ℕ → ℕ → ℕ → Option (Decoded (ℕ × ℕ))
unfolding decode_uint
decode_id buf buflen elength flen1 len =
    if leb 2 flen1
    then some (Decoded.decoded elength (flen1 - 2, len))
    else if ltb buflen (elength + (flen1 + 1))
    then some (Decoded.short (elength + (flen1 + 1)))
    else elim (decode_uint (flen1 + 1) (drop elength buf)) [
      | none ↦ none
      | some id ↦ some (Decoded.decoded (elength + (flen1 + 1)) (id, len))
    ]

-- `z_decode_field`: the number of bytes read, the id and the length; or the bytes needed
unfoldable pub decode_field : List ℕ → ℕ → Option (Decoded (ℕ × ℕ))
unfolding decode_id decode_uint
decode_field [] buflen = none
decode_field (head ∷ buf) buflen =
    let flen0 = 1 + head / 16 % 8 in
    let flen1 = head % 16 in
    if leb 128 head
    then (if ltb buflen (1 + flen0)
        then some (Decoded.short (1 + flen0 + (if leb 2 flen1 then 0 else flen1 + 1)))
        else elim (decode_uint flen0 buf) [
          | none ↦ none
          | some len ↦ decode_id (head ∷ buf) buflen (1 + flen0) flen1 len
        ])
    else decode_id (head ∷ buf) buflen 1 flen1 flen0
