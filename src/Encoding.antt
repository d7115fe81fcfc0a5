-- ===== src/Encoding.antt =====
-- Solvers/SAT/GlucoseSyrup/syrup/com/ComEncoding.h: unsigned ints as sequences of bytes, seven bits
-- each, the lowest first, in which the eighth bit says that more follow. The bytes written are
-- the list of them; a value that is read is an int of 32 bits, by its bits.
pub mod Read
mod Tests
use dsyrup.Base.{
  ℕ, zero, suc, ◌+◌, ◌*◌, ◌/◌, ◌%◌, ◌^◌, Bool, true, false, Option, none, some, List, [], ◌∷◌, ◌++◌,
  if◌then◌else◌, leb, ltb, ◌>>=◌,
}

-- The loop of `VWEencodeUInt`; at most five bytes are written for 32 bits.
unfoldable pub encode_bytes : ℕ → ℕ → List ℕ
encode_bytes zero value = []
encode_bytes (suc fuel) value =
    let rest = encode_bytes fuel (value / 128) in
    if ltb 127 value then (value % 128 + 128) ∷ rest else value % 128 ∷ []

unfoldable pub vwe_encode_uint : ℕ → List ℕ
unfolding encode_bytes
vwe_encode_uint value = encode_bytes 5 value

-- `VWEencodeUIntTab`: the value goes through an int, whose loop is not entered when it is negative.
unfoldable pub encode_int : ℕ → List ℕ
unfolding encode_bytes
encode_int value = if ltb value (2 ^ 31) then encode_bytes 5 value else value % 128 ∷ []

unfoldable pub vwe_encode_uint_tab : List ℕ → List ℕ
unfolding encode_int
vwe_encode_uint_tab [] = []
vwe_encode_uint_tab (v ∷ vs) = encode_int v ++ vwe_encode_uint_tab vs

-- The loop of `VWEdecodeUInt`, at the byte number `i` of a value: the value with the bits of the bytes
-- that follow, and the rest; `none` when it reads past the end. The bytes do not overlap, so that
-- `|=` adds.
unfoldable pub decode_bytes : ℕ → ℕ → List ℕ → Option (ℕ × List ℕ)
decode_bytes i value [] = none
decode_bytes i value (b ∷ bs) =
    let next = (value + b % 128 * 2 ^ (7 * i)) % 2 ^ 32 in
    let rest = decode_bytes (suc i) next bs in if leb 128 b then rest else some (next, bs)

unfoldable pub vwe_decode_uint : List ℕ → Option (ℕ × List ℕ)
unfolding decode_bytes
vwe_decode_uint bs = decode_bytes 0 0 bs

abbrev pub put_value : (List ℕ → Option (List ℕ)) → ℕ × List ℕ → Option (List ℕ)
put_value next (v, bs) = next bs >>= λ vs. some (v ∷ vs)

-- `VWEdecodeUIntTab`, as many values as the fuel allows.
unfoldable pub vwe_decode_uint_tab : ℕ → List ℕ → Option (List ℕ)
unfolding vwe_decode_uint
vwe_decode_uint_tab fuel [] = some []
vwe_decode_uint_tab zero (b ∷ bs) = none
vwe_decode_uint_tab (suc fuel) (b ∷ bs) =
    vwe_decode_uint (b ∷ bs) >>= put_value (vwe_decode_uint_tab fuel)
