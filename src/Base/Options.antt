-- ===== src/Base/Options.antt =====
-- Chains of steps that can fail.
use mathlib.Core.Path.{◌≡◌, refl}
use mathlib.Core.Option.{Option, none, some}

abbrev pub ◌>>=◌ {ℓ₁ ℓ₂} :
    {Now : Type ℓ₁} {Next : Type ℓ₂} → Option Now → (Now → Option Next) → Option Next
none >>= step = none
some now >>= step = step now

infixl 5 ◌>>=◌
-- A chain that succeeds, taken apart.
pub >>=-some {ℓ₁ ℓ₂} :
    {Now : Type ℓ₁} {Next : Type ℓ₂} (o : Option Now) (step : Now → Option Next) {next : Next}
    → (o >>= step) ≡ some next
    → (now : Now) × (o ≡ some now) × (step now ≡ some next)
>>=-some none step e = cc
>>=-some (some now) step e = (now, refl, e)
