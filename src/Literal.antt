-- ===== src/Literal.antt =====
-- Solvers/SAT/GlucoseSyrup/syrup/core/SolverTypes.h: literals and lifted Booleans. A literal is its
-- int, which is not negative (lit_Undef and lit_Error are left out); `p ^ 1` flips its last bit. An
-- lbool is its uint8_t, from 0 to 3.
pub mod Laws
use Prim.Native.Nat.{bit_and, bit_or}
use dsyrup.Base.{ℕ, ◌+◌, ◌-◌, ◌*◌, ◌/◌, ◌%◌, ◌^◌, Bool, true, false, not, ◌&&◌, if◌then◌else◌, ◌==◌}

unfoldable pub mk_lit : ℕ → Bool → ℕ
mk_lit v s = v + v + (if s then 1 else 0)

-- `operator ~`
unfoldable pub negate : ℕ → ℕ
negate p = if p % 2 == 0 then p + 1 else p - 1

-- `operator ^`
unfoldable pub flip_if : ℕ → Bool → ℕ
unfolding negate
flip_if p b = if b then negate p else p

abbrev pub sign : ℕ → Bool
sign p = p % 2 == 1

abbrev pub var : ℕ → ℕ
var p = p / 2

-- `operator ==` on lbool
unfoldable pub equals : ℕ → ℕ → Bool
equals a b = not (
    bit_or (bit_and (bit_and b 2) (bit_and a 2)) (if (bit_and b 2 == 0) && (a == b) then 1 else 0)
    == 0)

-- the table of `operator &&`, and that of `operator ||`
abbrev pub and_table : ℕ
and_table = 4160181748

abbrev pub or_table : ℕ
or_table = 4244435968

abbrev pub select : ℕ → ℕ → ℕ
select a b = bit_or (a * 2) (b * 8) % 256

unfoldable pub both : ℕ → ℕ → ℕ
both a b = bit_and (and_table / 2 ^ select a b) 3

unfoldable pub either : ℕ → ℕ → ℕ
either a b = bit_and (or_table / 2 ^ select a b) 3
