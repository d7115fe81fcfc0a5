-- ===== src/Dimacs/Text.antt =====
-- Dimacs.h: a problem written out in DIMACS format is read back.
use dsyrup.Base.{
  ℕ, zero, suc, ◌+◌, ◌-◌, ◌*◌, ◌^◌, ◌≤◌, ◌<◌, ◌≡◌, refl, ap, ◌∙◌, subst, Bool, true, false, ◌&&◌,
  List, [], ◌∷◌, arith, if◌then◌else◌, ◌==◌, ltb,
}
use dsyrup.Dimacs.{
  returns, and_then, is_blank, skip_whitespace, is_digit, read_digits, read_sign, signed,
  starts_number, parse_int,
}

-- A number as it is spelled: whether there is a minus sign, the first digit, and the others.
pub record Number : Type 0 where
  pub is_minus : Bool
  pub first_digit : ℕ
  pub digits : List ℕ

abbrev pub horner : ℕ → List ℕ → ℕ
horner acc [] = acc
horner acc (d ∷ ds) = horner (acc * 10 + d) ds

abbrev pub magnitude : Number → ℕ
magnitude n = horner n.first_digit n.digits

abbrev pub all_digits : List ℕ → Bool
all_digits [] = true
all_digits (d ∷ ds) = ltb d 10 && all_digits ds

-- The digits are digits, and the number is an int.
abbrev pub is_int : Number → Bool
is_int n = ltb n.first_digit 10 && all_digits n.digits && ltb (magnitude n) (2 ^ 31)

-- Text before some other text.
abbrev pub write_digits : List ℕ → List ℕ → List ℕ
write_digits [] rest = rest
write_digits (d ∷ ds) rest = (48 + d) ∷ write_digits ds rest

abbrev pub write_number : Number → List ℕ → List ℕ
write_number n rest =
    let text = (48 + n.first_digit) ∷ write_digits n.digits rest in
    if n.is_minus then 45 ∷ text else text

acc_le_horner : (acc : ℕ) (ds : List ℕ) → acc ≤ horner acc ds
acc_le_horner acc [] = omega arith
acc_le_horner acc (d ∷ ds) = let rest = acc_le_horner (acc * 10 + d) ds in omega arith

read_digits-write_digits :
    (acc : ℕ) (ds rest : List ℕ)
    → all_digits ds ≡ true
    → horner acc ds < 2 ^ 31
    → starts_number rest ≡ false
    → read_digits acc (write_digits ds rest) ≡ returns (horner acc ds) rest
unfolding read_digits
read_digits-write_digits acc [] [] h b n = refl
read_digits-write_digits acc [] (c ∷ cs) h b n = rw n refl
read_digits-write_digits acc (d ∷ ds) rest h b n =
    let small : d < 10 = ground arith in
    let digit : is_digit (48 + d) ≡ true = ground arith in
    let back : 48 + d - 48 ≡ d = omega arith in
    let below = acc_le_horner (acc * 10 + d) ds in
    let fits : ltb (acc * 10 + d) (2 ^ 31) ≡ true = ground arith in
    rw (digit, back, fits) (read_digits-write_digits (acc * 10 + d) ds rest (ground arith) b n)

-- The value that is read.
abbrev pub value_of : Number → Bool × ℕ
value_of n = (n.is_minus && ltb 0 (magnitude n), magnitude n)

-- `k` blanks before some text.
abbrev pub spaces : ℕ → List ℕ → List ℕ
spaces zero rest = rest
spaces (suc k) rest = 32 ∷ spaces k rest

pub skip_whitespace-spaces :
    (k : ℕ) (cs : List ℕ) → skip_whitespace (spaces k cs) ≡ skip_whitespace cs
unfolding skip_whitespace
skip_whitespace-spaces zero cs = refl
skip_whitespace-spaces (suc k) cs = skip_whitespace-spaces k cs

read_digits-first :
    (d : ℕ) (ds rest : List ℕ)
    → d < 10
    → all_digits ds ≡ true
    → horner d ds < 2 ^ 31
    → starts_number rest ≡ false
    → read_digits 0 ((48 + d) ∷ write_digits ds rest) ≡ returns (horner d ds) rest
read_digits-first d ds rest small h b n =
    subst
      (λ z.
        horner z ds < 2 ^ 31
        → read_digits 0 ((48 + d) ∷ write_digits ds rest) ≡ returns (horner z ds) rest)
      (omega arith) (λ b. read_digits-write_digits 0 (d ∷ ds) rest (ground arith) b n) b

parse_int-read_sign :
    (cs digits : List ℕ) (neg : Bool)
    → read_sign (skip_whitespace cs) ≡ (neg, digits)
    → starts_number digits ≡ true
    → parse_int cs ≡ and_then (read_digits 0 digits) (signed neg)
unfolding parse_int
parse_int-read_sign cs digits neg e d = rw (e, d) refl

read_sign-digits :
    (k d : ℕ) (ds : List ℕ) (minus : Bool)
    → d < 10
    → read_sign (skip_whitespace (spaces k (if minus then 45 ∷ (48 + d) ∷ ds else (48 + d) ∷ ds)))
      ≡ (minus, (48 + d) ∷ ds)
unfolding skip_whitespace
read_sign-digits k d ds true small = rw (skip_whitespace-spaces k (45 ∷ (48 + d) ∷ ds)) refl
read_sign-digits k d ds false small =
    let plain : is_blank (48 + d) ≡ false = ground arith in
    let no_minus : (48 + d == 45) ≡ false = ground arith in
    let no_plus : (48 + d == 43) ≡ false = ground arith in
    rw (skip_whitespace-spaces k ((48 + d) ∷ ds), plain, no_minus, no_plus) refl

parse_int-digits :
    (k d : ℕ) (ds rest : List ℕ) (minus : Bool)
    → d < 10
    → all_digits ds ≡ true
    → horner d ds < 2 ^ 31
    → starts_number rest ≡ false
    → parse_int (
        spaces k
          (if minus then 45 ∷ (48 + d) ∷ write_digits ds rest else (48 + d) ∷ write_digits ds rest))
      ≡ returns (minus && ltb 0 (horner d ds), horner d ds) rest
parse_int-digits k d ds rest minus small h b n =
    let text = (48 + d) ∷ write_digits ds rest in
    let cs = spaces k (if minus then 45 ∷ text else text) in
    parse_int-read_sign cs text minus (read_sign-digits k d (write_digits ds rest) minus small)
      (ground arith)
    ∙ ap (λ o. and_then o (signed minus)) (read_digits-first d ds rest small h b n)

-- A number that is an int is read back, after blanks and before anything but a digit.
pub parse_int-write_number :
    (k : ℕ) (n : Number) (rest : List ℕ)
    → is_int n ≡ true
    → starts_number rest ≡ false
    → parse_int (spaces k (write_number n rest)) ≡ returns (value_of n) rest
parse_int-write_number k n rest h e =
    parse_int-digits k n.first_digit n.digits rest n.is_minus (ground arith) (ground arith)
      (ground arith) e
