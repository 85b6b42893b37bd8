-- ===== src/Base/Results.antt =====
-- Rust's `Result`, with `do` blocks, and the conversions between it and `Option`.
use mathlib.Core.Path.{◌≡◌, refl}
use mathlib.Core.Logic.{◌⊎◌, inl, inr}
use mathlib.Core.Bool.{Bool, true, false}
use mathlib.Core.Option.{Option, none, some}

-- `Option::is_some`
abbrev pub is_some {ℓ} : {A : Type ℓ} → Option A → Bool
is_some (some _) = true
is_some none = false

pub data Result {ℓ κ} (Err : Type κ) (Ok : Type ℓ) : Type (κ ⊔ ℓ) where
  err : Err → Result Err Ok
  ok : Ok → Result Err Ok

-- `Result::ok`
abbrev pub to_option {ℓ κ} : {Err : Type κ} {Ok : Type ℓ} → Result Err Ok → Option Ok
to_option (err _) = none
to_option (ok v) = some v

-- `Option::ok_or`
abbrev pub ok_or {ℓ κ} : {Err : Type κ} {Ok : Type ℓ} → Option Ok → Err → Result Err Ok
ok_or (some v) _ = ok v
ok_or none problem = err problem

-- `if test { return Err(problem) }`
abbrev pub refuse_if {κ} : {Err : Type κ} → Bool → Err → Result Err (Unit {0})
refuse_if false _ = ok tt
refuse_if true problem = err problem

-- the operator `?`, as the bind of `do`
infixl 5 ◌>>=◌ ◌>>◌
abbrev pub ◌>>=◌ {ℓ κ μ} :
    {Err : Type κ} {Ok : Type ℓ} {Next : Type μ}
    → Result Err Ok
    → (Ok → Result Err Next)
    → Result Err Next
err problem >>= rest = err problem
ok v >>= rest = rest v

abbrev pub ◌>>◌ {ℓ κ} :
    {Err : Type κ} {Next : Type ℓ} → Result Err (Unit {0}) → Result Err Next → Result Err Next
first >> rest = first >>= λ _. rest

pub Result-cases {ℓ κ} :
    {Err : Type κ} {Ok : Type ℓ} (m : Result Err Ok)
    → ((e : Err) × (m ≡ err e)) ⊎ ((v : Ok) × (m ≡ ok v))
Result-cases (err e) = inl (e, refl)
Result-cases (ok v) = inr (v, refl)
