-- ===== src/Coding/Field.antt =====
-- `z_encode_field` and `z_decode_field` against each other.
use mathlib.Core.List.{append_assoc}
use raleigh_fs.Common.{
  ℕ, ◌+◌, ◌/◌, ◌%◌, ◌^◌, ◌<◌, ◌≤◌, true, false, Option, some, List, [], ◌∷◌, ◌++◌, drop, length,
  leb, ltb, if◌then◌else◌, ◌≡◌, ◌⊎◌, inl, inr, refl, sym, ap, ◌∙◌, arith, Bool-cases,
}
use raleigh_fs.Coding.{
  uint64_size, Decoded, encode_uint, decode_uint, length_head, length_bytes, id_head, id_bytes,
  encode_field, encoded_field_length, decode_id, decode_field,
}
use raleigh_fs.Coding.Parts.{
  length-encode_uint, decode-encode_uint, uint64_size_fits, uint64_size_range, uint32_size_range,
  length-id_bytes, length-length_bytes, drop-append, id_parts, decode_id_lem,
}

length_head_parts :
    (len h : ℕ)
    → 1 ≤ len
    → h < 16
    → ((length_head len + h) % 16 ≡ h)
      × ((length_head len + h) / 16 % 8 + 1 ≡ (if leb len 8 then len else uint64_size len))
      × (leb 128 (length_head len + h) ≡ (if leb len 8 then false else true))
unfolding length_head
length_head_parts len h p q = ground (arith, uint64_size_range len)

id_head-lt : (id : ℕ) → id < 2 ^ 16 → id_head id < 16
unfolding id_head
id_head-lt id b = ground (arith, uint32_size_range id b)

decode_field_internal :
    (head : ℕ) (buf : List ℕ) (buflen : ℕ)
    → leb 128 head ≡ false
    → decode_field (head ∷ buf) buflen
      ≡ decode_id (head ∷ buf) buflen 1 (head % 16) (1 + head / 16 % 8)
unfolding decode_field
decode_field_internal head buf buflen h = rw h

decode_field_external :
    (head : ℕ) (buf : List ℕ) (buflen len : ℕ)
    → leb 128 head ≡ true
    → decode_uint (1 + head / 16 % 8) buf ≡ some len
    → decode_field (head ∷ buf) buflen ≡ (
        if ltb buflen (1 + (1 + head / 16 % 8))
        then some (
            Decoded.short
              (1 + (1 + head / 16 % 8) + (if leb 2 (head % 16) then 0 else head % 16 + 1)))
        else decode_id (head ∷ buf) buflen (1 + (1 + head / 16 % 8)) (head % 16) len)
unfolding decode_field
decode_field_external head buf buflen len h e = rw (h, e)

encoded_field_parts :
    (id len : ℕ)
    → encoded_field_length id len ≡ 1 + length (length_bytes len) + length (id_bytes id)
unfolding encoded_field_length
encoded_field_parts id len = ground (arith, length-id_bytes id, length-length_bytes len)

length_parts :
    (len : ℕ)
    → ((leb len 8 ≡ true) × (length_bytes len ≡ []))
      ⊎ ((leb len 8 ≡ false)
          × (length_bytes len ≡ encode_uint (uint64_size len) len)
          × (length (length_bytes len) ≡ uint64_size len))
unfolding length_bytes
length_parts len = ground (arith, length-encode_uint (uint64_size len) len)

-- The end of the two cases: the id is read behind `1 + m` bytes that are there.
Reads : ℕ → ℕ → ℕ → Option (Decoded (ℕ × ℕ)) → Type 0
Reads id len buflen d = d ≡ (
    if leb (encoded_field_length id len) buflen
    then some (Decoded.decoded (encoded_field_length id len) (id, len))
    else some (Decoded.short (encoded_field_length id len)))

id_behind :
    (id len buflen m : ℕ) (buf rest : List ℕ)
    → id < 2 ^ 16
    → m ≡ length (length_bytes len)
    → 1 + m ≤ buflen
    → drop (1 + m) buf ≡ id_bytes id ++ rest
    → Reads id len buflen (decode_id buf buflen (1 + m) (id_head id) len)
unfolding Reads
id_behind id len buflen m buf rest b e f d =
    decode_id_lem buf rest buflen (1 + m) id len b f d ∙ rw (encoded_field_parts id len, e)

external_cases :
    (id len buflen m : ℕ) (buf rest : List ℕ)
    → id < 2 ^ 16
    → m ≡ length (length_bytes len)
    → drop (1 + m) buf ≡ id_bytes id ++ rest
    → Reads id len buflen (
        if ltb buflen (1 + m)
        then some (Decoded.short (1 + m + (if leb 2 (id_head id) then 0 else id_head id + 1)))
        else decode_id buf buflen (1 + m) (id_head id) len)
unfolding Reads
external_cases id len buflen m buf rest b e d = elim (Bool-cases (ltb buflen (1 + m))) [
  | inl few ↦ let parts = encoded_field_parts id len in ground (arith, id_parts id b)
  | inr enough ↦ rw enough (id_behind id len buflen m buf rest b e (ground arith) d)
]

-- A field's head is decoded to the id and the length that were encoded, whatever follows it, for
-- every 16-bit id and every 64-bit length but 0. Told of fewer bytes, but of one at least, the
-- decoder answers with the number of bytes that it needs, which is exactly the encoding's length.
pub decode-encode_field :
    (id len buflen : ℕ) (rest : List ℕ)
    → id < 2 ^ 16
    → 1 ≤ len
    → len < 2 ^ 64
    → 1 ≤ buflen
    → decode_field (encode_field id len ++ rest) buflen ≡ (
        if leb (encoded_field_length id len) buflen
        then some (Decoded.decoded (encoded_field_length id len) (id, len))
        else some (Decoded.short (encoded_field_length id len)))
unfolding encode_field Reads
decode-encode_field id len buflen rest b p q n =
    let (low, high, flag) = length_head_parts len (id_head id) p (id_head-lt id b) in
    let head = length_head len + id_head id in
    let turned : (k : ℕ) → 1 + k ≡ k + 1 = λ k. omega arith in
    elim (length_parts len) [
      | inl (small, bytes) ↦
          let len_read : 1 + head / 16 % 8 ≡ len = turned (head / 16 % 8) ∙ (high ∙ rw small) in
          rw bytes (
            decode_field_internal head (id_bytes id ++ rest) buflen (flag ∙ rw small)
            ∙ rw (low, len_read)
                (id_behind id len buflen 0 (head ∷ (id_bytes id ++ rest)) rest b
                  (sym (ap length bytes)) n refl))
      | inr (big, bytes, count) ↦
          let size_read : 1 + head / 16 % 8 ≡ uint64_size len =
            turned (head / 16 % 8) ∙ (high ∙ rw big) in
          let tail = length_bytes len ++ (id_bytes id ++ rest) in
          let read : decode_uint (1 + head / 16 % 8) tail ≡ some len =
            rw (size_read, bytes)
              (decode-encode_uint (uint64_size len) len (id_bytes id ++ rest)
                (uint64_size_fits len q)) in
          ap (λ l. decode_field (head ∷ l) buflen)
            (append_assoc (length_bytes len) (id_bytes id) rest)
          ∙ (decode_field_external head tail buflen len (flag ∙ rw big) read
              ∙ rw (low, size_read)
                  (external_cases id len buflen (uint64_size len) (head ∷ tail) rest b (sym count) (
                    drop-append (head ∷ length_bytes len) (id_bytes id ++ rest)
                      (1 + uint64_size len) (omega (arith, count)))))
    ]
