-- ===== src/Coding/Rounds.antt =====
-- Single rounds of `z_encode_vint` and `z_decode_vint`.
use mathlib.Core.Path.{subst}
use native.Mathlib.Nat.{pow-suc}
use raleigh_fs.Common.{
  ℕ, suc, ◌+◌, ◌*◌, ◌/◌, ◌%◌, ◌^◌, ◌<◌, ◌≤◌, some, List, [], ◌∷◌, leb, ltb, if◌then◌else◌, ◌≡◌, ap,
  ◌∙◌, arith,
}
use raleigh_fs.Coding.{vint_size, encode_vint_from, Decoded, decode_vint_from}

pow_step : (m k : ℕ) → 2 ^ (m + suc k) ≡ 2 ^ (m + k) * 2
pow_step m k = ap (λ e. 2 ^ e) (add_suc m k) ∙ pow-suc 2 (m + k)
  where
    add_suc : (m k : ℕ) → m + suc k ≡ suc (m + k)
    add_suc m k = omega arith

add_zero : (m : ℕ) → m + 0 ≡ m
add_zero m = omega arith

pub pow_seven : (m : ℕ) → 2 ^ (m + 7) ≡ 2 ^ m * 128
pow_seven m = omega (
  arith,
  ap (λ e. 2 ^ e) (add_zero m),
  pow_step m 0,
  pow_step m 1,
  pow_step m 2,
  pow_step m 3,
  pow_step m 4,
  pow_step m 5,
  pow_step m 6,
)

pub vint_size_step :
    (value : ℕ) → value < 2 ^ 64 → 128 ≤ value → vint_size value ≡ vint_size (value / 128) + 1
unfolding vint_size
vint_size_step value b h = ground arith

pub vint_size_last : (value : ℕ) → value < 128 → vint_size value ≡ 1
unfolding vint_size
vint_size_last value h = ground arith

pub ap_lt : (a b v : ℕ) → a ≡ b → v < 2 ^ a → v < 2 ^ b
ap_lt a b v e h = subst (λ k. v < 2 ^ k) e h

pub encode_vint_last :
    (k size value : ℕ)
    → value < 128
    → encode_vint_from (suc k) size value ≡ some (size, value % 128 ∷ [])
unfolding encode_vint_from
encode_vint_last k size value h = ground arith

pub encode_vint_more :
    (k size value n : ℕ) (bytes : List ℕ)
    → 128 ≤ value
    → encode_vint_from k (size + 1) (value / 128) ≡ some (n, bytes)
    → encode_vint_from (suc k) size value ≡ some (n, (value % 128 + 128) ∷ bytes)
unfolding encode_vint_from
encode_vint_more k size value n bytes h e = ground arith

pub decode_vint_last :
    (b : ℕ) (buf : List ℕ) (buflen shift count result : ℕ)
    → b < 128
    → shift ≤ 63
    → b * 2 ^ shift < 2 ^ 64
    → decode_vint_from (b ∷ buf) buflen shift count result ≡ (
        if leb (count + 1) buflen
        then some (Decoded.decoded (count + 1) (result + b * 2 ^ shift))
        else some (Decoded.short 0))
unfolding decode_vint_from
decode_vint_last b buf buflen shift count result h s m = ground arith

pub decode_vint_more :
    (b : ℕ) (buf : List ℕ) (buflen shift count result : ℕ)
    → b < 128
    → shift ≤ 63
    → b * 2 ^ shift < 2 ^ 64
    → decode_vint_from ((b + 128) ∷ buf) buflen shift count result ≡ (
        if ltb count buflen
        then decode_vint_from buf buflen (shift + 7) (count + 1) (result + b * 2 ^ shift)
        else some (Decoded.short 0))
unfolding decode_vint_from
decode_vint_more b buf buflen shift count result h s m =
    let masked : (b + 128) % 128 ≡ b = omega arith in
    let small : b * 2 ^ shift % 2 ^ 64 ≡ b * 2 ^ shift = omega arith in
    rw (masked, small) (ground arith)

pub split_value : (value p q : ℕ) → q ≡ p * 128 → value * p ≡ value % 128 * p + value / 128 * q
split_value value p q e =
    ap (λ v. v * p) (parts value) ∙ (expand (value / 128) (value % 128) p ∙ rw e)
  where
    parts : (v : ℕ) → v ≡ v / 128 * 128 + v % 128
    parts v = omega arith

    expand : (a b p : ℕ) → (a * 128 + b) * p ≡ b * p + a * (p * 128)
    expand a b p = omega arith

-- One byte and then the others are within the buffer if all are.
pub two_reads :
    (count n m buflen result x y z : ℕ)
    → m ≡ n + 1
    → z ≡ x + y
    → (if ltb count buflen
        then (if leb (count + 1 + n) buflen
            then some (Decoded.decoded (count + 1 + n) (result + x + y))
            else some (Decoded.short 0))
        else some (Decoded.short 0))
      ≡ (if leb (count + m) buflen
          then some (Decoded.decoded (count + m) (result + z))
          else some (Decoded.short 0))
two_reads count n m buflen result x y z e f = ground arith
