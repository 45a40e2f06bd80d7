-- ===== src/Coding/Tests.antt =====
-- The encodings of concrete integers and fields.
use raleigh_fs.Common.{ℕ, ◌^◌, some, List, [], ◌∷◌, ◌++◌, length, ◌≡◌, refl, arith}
use raleigh_fs.Coding.{
  uint32_size, uint64_size, vint_size, encode_vint, Decoded, decode_vint, length_head, length_bytes,
  id_head, id_bytes, encode_field, encoded_field_length, decode_field,
}
use raleigh_fs.Coding.Group.{encode_4int, decode_4int, encode_3int, decode_3int}
use raleigh_fs.Coding.Group.Round.{decode-encode_group}
use raleigh_fs.Coding.Vint.{decode-encode_vint, EndsWithin, decode_vint-EndsWithin}
use raleigh_fs.Coding.Field.{decode-encode_field}

vint_300 : encode_vint 300 ≡ some (2, 172 ∷ 2 ∷ [])
unfolding encode_vint
vint_300 = refl

decode-encode_vint_example :
    (bytes : List ℕ) × (encode_vint 300 ≡ some (2, bytes))
    × (length bytes ≡ 2)
    × (decode_vint (bytes ++ 7 ∷ []) 3 ≡ some (Decoded.decoded 2 300))
unfolding vint_size
decode-encode_vint_example = decode-encode_vint 300 (7 ∷ []) 3 (omega arith)

decode_vint-EndsWithin_example : EndsWithin 2 (decode_vint (200 ∷ 129 ∷ 1 ∷ []) 2)
decode_vint-EndsWithin_example = decode_vint-EndsWithin (200 ∷ 129 ∷ 1 ∷ []) 2 (omega arith)

field_300 : encode_field 20 300 ≡ 144 ∷ 44 ∷ 1 ∷ 20 ∷ []
unfolding encode_field length_head length_bytes id_head id_bytes
field_300 = refl

decode-encode_field_example :
    decode_field (encode_field 20 300 ++ 9 ∷ []) 2 ≡ some (Decoded.short 4)
unfolding encoded_field_length
decode-encode_field_example =
    decode-encode_field 20 300 2 (9 ∷ []) (omega arith) (omega arith) (omega arith) (omega arith)

decode-encode_group_example :
    (decode_4int ((encode_4int 1 300 70000 0).1 ++ 9 ∷ []) ≡ some (8, 1, 300, 70000, 0))
    × (decode_3int ((encode_3int 5 (2 ^ 40) 256).1 ++ 9 ∷ []) ≡ some (10, 5, 2 ^ 40, 256))
unfolding encode_4int encode_3int uint32_size uint64_size
decode-encode_group_example =
    decode-encode_group 1 300 70000 0 5 (2 ^ 40) 256 (9 ∷ []) (omega arith) (omega arith)
      (omega arith) (omega arith) (omega arith) (omega arith) (omega arith)
