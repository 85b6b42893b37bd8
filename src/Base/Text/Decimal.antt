-- ===== src/Base/Text/Decimal.antt =====
-- `ToString` of an unsigned number.
use Prim.Native.Nat.{ℕ, zero, suc, ◌+◌, ◌/◌, ◌%◌}
use mathlib.Core.List.{[], ◌∷◌}
use moesegfault_indentity.Base.Tests.{ltb, if◌then◌else◌}
use moesegfault_indentity.Base.Text.{Text}

-- Each round takes the last digit; the fuel is more than the number has digits.
digits : ℕ → ℕ → Text → Text
digits zero n out = out
digits (suc fuel) n out =
    let more = digits fuel (n / 10) ((b'0' + n % 10) ∷ out) in
    if ltb n 10 then (b'0' + n) ∷ out else more

unfoldable pub decimal : ℕ → Text
unfolding digits
decimal n = digits (suc n) n []
