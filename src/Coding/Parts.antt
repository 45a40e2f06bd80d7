-- ===== src/Coding/Parts.antt =====
-- The parts of a field's encoding: integers of a given length, and the id.
use native.Mathlib.Nat.{pow-suc}
use raleigh_fs.Common.{
  ℕ, zero, suc, ◌+◌, ◌/◌, ◌^◌, ◌<◌, ◌≤◌, some, List, [], ◌∷◌, ◌++◌, drop, length, length-append,
  leb, if◌then◌else◌, ◌≡◌, ◌⊎◌, inl, inr, refl, ap, ◌∙◌, arith,
}
use raleigh_fs.Coding.{
  uint32_size, uint64_size, Decoded, encode_uint, decode_uint, length_bytes, id_head, id_bytes,
  encode_field, encoded_field_length, decode_id,
}

pub length-encode_uint : (n value : ℕ) → length (encode_uint n value) ≡ n
unfolding encode_uint
length-encode_uint zero value = refl
length-encode_uint (suc n) value = ap suc (length-encode_uint n (value / 256))

below : (n value : ℕ) → value < 256 ^ suc n → value / 256 < 256 ^ n
below n value h = omega (arith, pow-suc 256 n)

-- What an integer's bytes are worth.
pub decode-encode_uint :
    (n value : ℕ) (rest : List ℕ)
    → value < 256 ^ n
    → decode_uint n (encode_uint n value ++ rest) ≡ some value
unfolding encode_uint decode_uint
decode-encode_uint zero value rest h = ap some (omega arith)
decode-encode_uint (suc n) value rest h =
    rw (decode-encode_uint n (value / 256) rest (below n value h), decode_uint)
      (ap some (omega arith))

pub uint64_size_fits : (value : ℕ) → value < 2 ^ 64 → value < 256 ^ uint64_size value
unfolding uint64_size
uint64_size_fits value h = ground arith

pub uint64_size_range : (value : ℕ) → (1 ≤ uint64_size value) × (uint64_size value ≤ 8)
unfolding uint64_size
uint64_size_range value = ground arith

pub uint32_size_fits : (value : ℕ) → value < 2 ^ 16 → value < 256 ^ uint32_size value
unfolding uint32_size
uint32_size_fits value h = ground arith

pub uint32_size_range :
    (value : ℕ) → value < 2 ^ 16 → (1 ≤ uint32_size value) × (uint32_size value ≤ 2)
unfolding uint32_size
uint32_size_range value h = ground arith

pub length-id_bytes : (id : ℕ) → length (id_bytes id) ≡ (if leb id 13 then 0 else uint32_size id)
unfolding id_bytes
length-id_bytes id = ground (arith, length-encode_uint (uint32_size id) id)

pub length-length_bytes :
    (len : ℕ) → length (length_bytes len) ≡ (if leb len 8 then 0 else uint64_size len)
unfolding length_bytes
length-length_bytes len = ground (arith, length-encode_uint (uint64_size len) len)

-- The field's encoding has the length that `z_encoded_field_length` tells.
pub length-encode_field : (id len : ℕ) → length (encode_field id len) ≡ encoded_field_length id len
unfolding encode_field encoded_field_length
length-encode_field id len = ground (
  arith,
  length-append (length_bytes len) (id_bytes id),
  length-id_bytes id,
  length-length_bytes len,
)

pub drop-append : (xs ys : List ℕ) (n : ℕ) → n ≡ length xs → drop n (xs ++ ys) ≡ ys
drop-append [] ys n e = rw e
drop-append (x ∷ xs) ys n e = rw e (drop-append xs ys (length xs) refl)

decode_id_outside :
    (buf : List ℕ) (buflen elength flen1 id len : ℕ)
    → flen1 < 2
    → decode_uint (flen1 + 1) (drop elength buf) ≡ some id
    → decode_id buf buflen elength flen1 len ≡ (
        if leb (elength + (flen1 + 1)) buflen
        then some (Decoded.decoded (elength + (flen1 + 1)) (id, len))
        else some (Decoded.short (elength + (flen1 + 1))))
unfolding decode_id
decode_id_outside buf buflen elength flen1 id len h e = ground arith

decode_id_inside :
    (buf : List ℕ) (buflen elength id len n : ℕ)
    → n ≡ 0
    → elength ≤ buflen
    → decode_id buf buflen elength (id + 2) len ≡ (
        if leb (elength + n) buflen
        then some (Decoded.decoded (elength + n) (id, len))
        else some (Decoded.short (elength + n)))
unfolding decode_id
decode_id_inside buf buflen elength id len n z h = ground arith

-- The id's part of the head, and how many bytes the id takes.
pub id_parts :
    (id : ℕ)
    → id < 2 ^ 16
    → ((id_head id ≡ id + 2) × (length (id_bytes id) ≡ 0))
      ⊎ ((id_head id < 2)
          × (id_head id + 1 ≡ length (id_bytes id))
          × (id_head id + 1 ≡ uint32_size id)
          × (id_bytes id ≡ encode_uint (uint32_size id) id))
unfolding id_head id_bytes
id_parts id h = ground (arith, uint32_size_range id h, length-encode_uint (uint32_size id) id)

pub decode_id_lem :
    (buf rest : List ℕ) (buflen elength id len : ℕ)
    → id < 2 ^ 16
    → elength ≤ buflen
    → drop elength buf ≡ id_bytes id ++ rest
    → decode_id buf buflen elength (id_head id) len ≡ (
        if leb (elength + length (id_bytes id)) buflen
        then some (Decoded.decoded (elength + length (id_bytes id)) (id, len))
        else some (Decoded.short (elength + length (id_bytes id))))
decode_id_lem buf rest buflen elength id len b e d = elim (id_parts id b) [
  | inl (head, none_) ↦
      rw head (decode_id_inside buf buflen elength id len (length (id_bytes id)) none_ e)
  | inr (few, many, size, bytes) ↦
      let read : decode_uint (id_head id + 1) (drop elength buf) ≡ some id =
        rw (size, d, bytes) (decode-encode_uint (uint32_size id) id rest (uint32_size_fits id b)) in
      decode_id_outside buf buflen elength (id_head id) id len few read ∙ rw many
]
