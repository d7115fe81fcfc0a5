-- ===== src/Encoding/Read.antt =====
-- ComEncoding.h: what is encoded is decoded.
use native.Mathlib.Omega.{pow_step}
use dsyrup.Base.{
  ℕ, zero, suc, ◌+◌, ◌*◌, ◌/◌, ◌%◌, ◌^◌, ◌<◌, ◌≡◌, refl, sym, ap, ◌∙◌, subst, Bool, true, false,
  ◌&&◌, none, some, List, [], ◌∷◌, ◌++◌, arith, leb, ltb, length, Bool-cases, inl, inr, ◌>>=◌,
}
use dsyrup.Encoding.{
  encode_bytes, vwe_encode_uint, encode_int, vwe_encode_uint_tab, decode_bytes, vwe_decode_uint,
  put_value, vwe_decode_uint_tab,
}

distribute : (r q w : ℕ) → (r + q * 128) * w ≡ r * w + q * (128 * w)
distribute r q w = omega arith

-- The weight of the next byte.
weight-suc : (i : ℕ) → 2 ^ (7 * suc i) ≡ 128 * 2 ^ (7 * i)
weight-suc i =
    let k = 7 * i in
    let seven : 7 * suc i ≡ suc (suc (suc (suc (suc (suc (suc k)))))) = omega arith in
    let a = pow_step 2 k in
    let b = pow_step 2 (suc k) in
    let c = pow_step 2 (suc (suc k)) in
    let d = pow_step 2 (suc (suc (suc k))) in
    let e = pow_step 2 (suc (suc (suc (suc k)))) in
    let f = pow_step 2 (suc (suc (suc (suc (suc k))))) in
    let g = pow_step 2 (suc (suc (suc (suc (suc (suc k)))))) in ap (λ n. 2 ^ n) seven ∙ omega arith

-- A value split into its lowest seven bits and the others.
split_value :
    (value i : ℕ) → value * 2 ^ (7 * i) ≡ value % 128 * 2 ^ (7 * i) + value / 128 * 2 ^ (7 * suc i)
split_value value i =
    let parts : value ≡ value % 128 + value / 128 * 128 = omega arith in
    ap (λ v. v * 2 ^ (7 * i)) parts
    ∙ distribute (value % 128) (value / 128) (2 ^ (7 * i))
    ∙ ap (λ w. value % 128 * 2 ^ (7 * i) + value / 128 * w) (sym (weight-suc i))

-- One byte read.
decode-last :
    (i low b : ℕ) (rest : List ℕ)
    → b < 128
    → low + b * 2 ^ (7 * i) < 2 ^ 32
    → decode_bytes i low (b ∷ rest) ≡ some (low + b * 2 ^ (7 * i), rest)
unfolding decode_bytes
decode-last i low b rest h l =
    let end : leb 128 b ≡ false = ground arith in
    let same : b % 128 ≡ b = omega arith in
    let fits : (low + b * 2 ^ (7 * i)) % 2 ^ 32 ≡ low + b * 2 ^ (7 * i) = ground arith in
    rw (end, same, fits) refl

decode-more :
    (i low r : ℕ) (rest : List ℕ)
    → r < 128
    → low + r * 2 ^ (7 * i) < 2 ^ 32
    → decode_bytes i low ((r + 128) ∷ rest) ≡ decode_bytes (suc i) (low + r * 2 ^ (7 * i)) rest
unfolding decode_bytes
decode-more i low r rest h l =
    let more : leb 128 (r + 128) ≡ true = ground arith in
    let same : (r + 128) % 128 ≡ r = omega arith in
    let fits : (low + r * 2 ^ (7 * i)) % 2 ^ 32 ≡ low + r * 2 ^ (7 * i) = ground arith in
    rw (more, same, fits) refl

-- The bytes of a value from the byte number `i` on, before other bytes: the bits are put above those
-- that were read.
decode_bytes-encode_bytes :
    (fuel i low value : ℕ) (rest : List ℕ)
    → value < 128 ^ suc fuel
    → low + value * 2 ^ (7 * i) < 2 ^ 32
    → decode_bytes i low (encode_bytes (suc fuel) value ++ rest)
      ≡ some (low + value * 2 ^ (7 * i), rest)
unfolding encode_bytes
decode_bytes-encode_bytes zero i low value rest h b =
    let small : ltb 127 value ≡ false = ground arith in
    let same : value % 128 ≡ value = ground arith in
    rw (small, same) (decode-last i low value rest (ground arith) b)
decode_bytes-encode_bytes (suc fuel) i low value rest h b = elim (Bool-cases (ltb 127 value)) [
  | inr last ↦
      let same : value % 128 ≡ value = ground arith in
      rw (last, same) (decode-last i low value rest (ground arith) b)
  | inl more ↦
      let parts = split_value value i in
      let power = pow_step 128 (suc fuel) in
      let smaller : value / 128 < 128 ^ suc fuel = omega arith in
      let sum : low + value * 2 ^ (7 * i)
          ≡ low + value % 128 * 2 ^ (7 * i) + value / 128 * 2 ^ (7 * suc i) =
        omega arith in
      let rec =
        decode_bytes-encode_bytes fuel (suc i) (low + value % 128 * 2 ^ (7 * i)) (value / 128) rest
          smaller (subst (λ z. z < 2 ^ 32) sum b) in
      rw more (
        decode-more i low (value % 128) (encode_bytes (suc fuel) (value / 128) ++ rest)
          (ground arith) (omega arith)
        ∙ rec
        ∙ ap (λ z. some (z, rest)) (sym sum))
]

-- Every unsigned int of 32 bits is read back from its bytes, whatever follows them.
pub vwe_decode_uint-vwe_encode_uint :
    (value : ℕ) (rest : List ℕ)
    → value < 2 ^ 32
    → vwe_decode_uint (vwe_encode_uint value ++ rest) ≡ some (value, rest)
unfolding vwe_decode_uint vwe_encode_uint
vwe_decode_uint-vwe_encode_uint value rest h =
    let whole : 0 + value * 2 ^ (7 * 0) ≡ value = omega arith in
    decode_bytes-encode_bytes 4 0 0 value rest (omega arith) (omega arith)
    ∙ ap (λ z. some (z, rest)) whole

-- An int that is not negative is written as the unsigned int.
encode_int-read :
    (value : ℕ) (rest : List ℕ)
    → value < 2 ^ 31
    → vwe_decode_uint (encode_int value ++ rest) ≡ some (value, rest)
unfolding encode_int vwe_encode_uint
encode_int-read value rest h =
    let positive : ltb value (2 ^ 31) ≡ true = ground arith in
    rw positive (vwe_decode_uint-vwe_encode_uint value rest (omega arith))

no_value : {A : Type 0} (a : A) → none ≡ some a → ⊥
no_value a e = cc

nothing_there : none ≡ vwe_decode_uint []
unfolding vwe_decode_uint decode_bytes
nothing_there = refl

decode_one :
    (fuel v : ℕ) (bs rest : List ℕ)
    → vwe_decode_uint bs ≡ some (v, rest)
    → vwe_decode_uint_tab (suc fuel) bs ≡ put_value (vwe_decode_uint_tab fuel) (v, rest)
unfolding vwe_decode_uint_tab
decode_one fuel v [] rest e = absurd (no_value (v, rest) (nothing_there ∙ e))
decode_one fuel v (b ∷ bs) rest e = ap (λ o. o >>= put_value (vwe_decode_uint_tab fuel)) e

abbrev pub are_ints : List ℕ → Bool
are_ints [] = true
are_ints (v ∷ vs) = ltb v (2 ^ 31) && are_ints vs

-- A table of unsigned ints below 2 ^ 31 is read back from its bytes, with as many values as fuel.
pub vwe_decode_uint_tab-vwe_encode_uint_tab :
    (vs : List ℕ)
    → are_ints vs ≡ true
    → vwe_decode_uint_tab (length vs) (vwe_encode_uint_tab vs) ≡ some vs
unfolding vwe_encode_uint_tab vwe_decode_uint_tab
vwe_decode_uint_tab-vwe_encode_uint_tab [] h = refl
vwe_decode_uint_tab-vwe_encode_uint_tab (v ∷ vs) h =
    decode_one (length vs) v (encode_int v ++ vwe_encode_uint_tab vs) (vwe_encode_uint_tab vs)
      (encode_int-read v (vwe_encode_uint_tab vs) (ground arith))
    ∙ ap (λ o. o >>= λ vs. some (v ∷ vs))
        (vwe_decode_uint_tab-vwe_encode_uint_tab vs (ground arith))
