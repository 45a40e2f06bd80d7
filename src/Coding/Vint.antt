-- ===== src/Coding/Vint.antt =====
-- `z_encode_vint` and `z_decode_vint` against each other.
use raleigh_fs.Common.{
  ℕ, zero, suc, ◌+◌, ◌*◌, ◌/◌, ◌%◌, ◌^◌, ◌<◌, ◌≤◌, ◌&&◌, Option, none, some, List, [], ◌∷◌, ◌++◌,
  length, leb, ltb, if◌then◌else◌, ◌≡◌, inl, inr, refl, ap, ◌∙◌, arith, Bool-cases,
}
use raleigh_fs.Coding.{
  vint_size, encode_vint_from, encode_vint, Decoded, decode_vint_from, decode_vint,
}
use raleigh_fs.Coding.Rounds.{
  pow_seven, vint_size_step, vint_size_last, ap_lt, encode_vint_last, encode_vint_more,
  decode_vint_last, decode_vint_more, split_value, two_reads,
}

-- What the decoder makes of the bytes, with `count` bytes and `shift` bits read before.
abbrev Decodes : ℕ → List ℕ → Type 0
Decodes value bytes =
    (rest : List ℕ) (buflen shift count result : ℕ)
    → shift + 7 * vint_size value ≤ 70
    → value * 2 ^ shift < 2 ^ 64
    → decode_vint_from (bytes ++ rest) buflen shift count result ≡ (
        if leb (count + vint_size value) buflen
        then some (Decoded.decoded (count + vint_size value) (result + value * 2 ^ shift))
        else some (Decoded.short 0))

Decodes-last : (value : ℕ) → value < 128 → Decodes value (value % 128 ∷ [])
Decodes-last value h rest buflen shift count result f b =
    let last = vint_size_last value h in
    let same : value % 128 ≡ value = omega arith in
    rw (same, last) (decode_vint_last value rest buflen shift count result h (omega arith) b)

Decodes-more :
    (value : ℕ) (bytes : List ℕ)
    → 128 ≤ value
    → value < 2 ^ 64
    → Decodes (value / 128) bytes
    → Decodes value ((value % 128 + 128) ∷ bytes)
Decodes-more value bytes h w d rest buflen shift count result f b =
    let size = vint_size_step value w h in
    let split = split_value value (2 ^ shift) (2 ^ (shift + 7)) (pow_seven shift) in
    let low : value % 128 * 2 ^ shift < 2 ^ 64 = omega arith in
    let head =
      decode_vint_more (value % 128) (bytes ++ rest) buflen shift count result (omega arith)
        (omega arith) low in
    let tail =
      d rest buflen (shift + 7) (count + 1) (result + value % 128 * 2 ^ shift) (omega arith)
        (omega arith) in
    head
    ∙ rw tail
        (two_reads count (vint_size (value / 128)) (vint_size value) buflen result _ _ _ size split)

-- Fuel for one round for each seven bits is enough.
encode_vint_lem :
    (k size value : ℕ)
    → value < 2 ^ (7 * suc k)
    → value < 2 ^ 64
    → (bytes : List ℕ) × (encode_vint_from (suc k) (suc size) value
        ≡ some (size + vint_size value, bytes))
      × (length bytes ≡ vint_size value)
      × Decodes value bytes
encode_vint_lem zero size value h b =
    let last = vint_size_last value (omega arith) in
    (
      value % 128 ∷ [],
      encode_vint_last 0 (suc size) value (omega arith)
          ∙ ap (λ n. some (n, value % 128 ∷ [])) (omega arith),
      omega arith,
      Decodes-last value (omega arith),
    )
encode_vint_lem (suc k) size value h b = elim (Bool-cases (leb 128 value)) [
  | inl big ↦
      let large : 128 ≤ value = ground arith in
      let below : value < 2 ^ (7 * suc k + 7) =
        ap_lt (7 * suc (suc k)) (7 * suc k + 7) value (omega arith) h in
      let step = pow_seven (7 * suc k) in
      let size_step = vint_size_step value b large in
      let (bytes, e, l, d) =
        encode_vint_lem k (suc size) (value / 128) (omega arith) (omega arith) in
      (
        (value % 128 + 128) ∷ bytes,
        encode_vint_more (suc k) (suc size) value (size + vint_size value) bytes large (
            ap (λ n. encode_vint_from (suc k) n (value / 128)) (omega arith)
            ∙ (e ∙ ap (λ n. some (n, bytes)) (omega arith))),
        omega arith,
        Decodes-more value bytes large b d,
      )
  | inr low ↦
      let small : value < 128 = ground arith in
      let last = vint_size_last value small in
      (
        value % 128 ∷ [],
        encode_vint_last (suc k) (suc size) value small
            ∙ ap (λ n. some (n, value % 128 ∷ [])) (omega arith),
        omega arith,
        Decodes-last value small,
      )
]

vint_size-le : (value : ℕ) → vint_size value ≤ 10
unfolding vint_size
vint_size-le value = ground arith

-- Every 64-bit value is encoded, in as many bytes as `z_vint_size` tells, and decoded from them
-- again whatever follows in the buffer; a decoder that is told of fewer bytes refuses.
pub decode-encode_vint :
    (value : ℕ) (rest : List ℕ) (buflen : ℕ)
    → value < 2 ^ 64
    → (bytes : List ℕ) × (encode_vint value ≡ some (vint_size value, bytes))
      × (length bytes ≡ vint_size value)
      × (decode_vint (bytes ++ rest) buflen ≡ (
          if leb (vint_size value) buflen
          then some (Decoded.decoded (vint_size value) value)
          else some (Decoded.short 0)))
unfolding encode_vint decode_vint
decode-encode_vint value rest buflen h =
    let (bytes, e, l, d) = encode_vint_lem 9 0 value (omega arith) h in
    let bound = vint_size-le value in
    let one : value * 1 ≡ value = omega arith in
    let left : (n : ℕ) → 0 + n ≡ n = λ n. omega arith in
    (
      bytes,
      e ∙ ap (λ n. some (n, bytes)) (left (vint_size value)),
      l,
      d rest buflen 0 0 0 (omega arith) (omega arith)
          ∙ rw (one, left (vint_size value), left value) refl,
    )

-- Refused, or a value from at most `buflen` bytes and at most ten.
abbrev pub EndsWithin : ℕ → Option (Decoded ℕ) → Type 0
EndsWithin buflen none = ⊥
EndsWithin buflen (some (Decoded.short needed)) = needed ≡ 0
EndsWithin buflen (some (Decoded.decoded n value)) = (n ≤ buflen) × (n ≤ 10)

decode_vint_from-EndsWithin :
    (buf : List ℕ) (buflen shift count result : ℕ)
    → buflen ≤ count + length buf
    → shift ≡ 7 * count
    → EndsWithin buflen (decode_vint_from buf buflen shift count result)
unfolding decode_vint_from
decode_vint_from-EndsWithin [] buflen shift count result h s = ground arith
decode_vint_from-EndsWithin (b ∷ buf) buflen shift count result h s =
    let next =
      decode_vint_from-EndsWithin buf buflen (shift + 7) (count + 1)
        (result + b % 128 * 2 ^ shift % 2 ^ 64) (omega arith) (omega arith) in
    elim (Bool-cases (leb shift 63 && ltb count buflen)) [
      | inl go ↦ elim (Bool-cases (leb 128 b)) [
        | inl more ↦ rw (go, decode_vint_from, more) next
        | inr last ↦ rw (go, decode_vint_from, last) (ground arith, ground arith)
      ]
      | inr stop ↦ rw (stop, decode_vint_from) refl
    ]

-- The decoder never reads past what it is told of: it ends on every buffer of that length, and what
-- it says it has read is no more than that, and no more than ten bytes.
pub decode_vint-EndsWithin :
    (buf : List ℕ) (buflen : ℕ) → buflen ≤ length buf → EndsWithin buflen (decode_vint buf buflen)
unfolding decode_vint
decode_vint-EndsWithin buf buflen h =
    decode_vint_from-EndsWithin buf buflen 0 0 0 (omega arith) (omega arith)
