-- ===== src/Prelude/Results.antt =====
-- What a fallible Rust function returns: `Result<T, E>`, its `?` as the bind of a `do` block, and
-- the lemmas that take a successful run apart.
use mathlib.Core.Path.{◌≡◌, refl}
use mathlib.Core.Logic.{◌⊎◌, inl, inr}
use mathlib.Core.Bool.{Bool, true, false}
use mathlib.Core.Option.{Option, none, some}
use dotfile.Prelude.Tests.{if◌then◌else◌}

pub data Result {ℓ} (E : Type 0) (T : Type ℓ) : Type ℓ where
  err : E → Result E T
  ok : T → Result E T

infixl 5 ◌>>=◌ ◌>>◌
abbrev pub ◌>>=◌ {ℓ κ} :
    {E : Type 0} {T : Type ℓ} {U : Type κ} → Result E T → (T → Result E U) → Result E U
err reason >>= k = err reason
ok value >>= k = k value

abbrev pub ◌>>◌ {ℓ} : {E : Type 0} {U : Type ℓ} → Result E (Unit {0}) → Result E U → Result E U
step >> next = step >>= λ _. next

-- `if !test { return Err(reason) }`
abbrev pub guard : {E : Type 0} → Bool → E → Result E (Unit {0})
guard test reason = elim test [ false ↦ err reason | true ↦ ok tt ]

-- `Option::ok_or`
abbrev pub ok_or {ℓ} : {E : Type 0} {T : Type ℓ} → Option T → E → Result E T
ok_or found reason = elim found [ none ↦ err reason | some value ↦ ok value ]

module _ {ℓ κ} {E : Type 0} {T : Type ℓ} {U : Type κ} where
  -- where a whole chain succeeded, its first step did, and so did the rest
  pub >>=-ok :
      (step : Result E T) (rest : T → Result E U) {final : U}
      → (step >>= rest) ≡ ok final
      → (value : T) × (step ≡ ok value) × (rest value ≡ ok final)
  >>=-ok (err reason) rest success = cc
  >>=-ok (ok value) rest success = (value, refl, success)

  pub >>=_congr :
      (step : Result E T) (rest rest' : T → Result E U)
      → ((value : T) → rest value ≡ rest' value)
      → (step >>= rest) ≡ (step >>= rest')
  >>=_congr (err reason) rest rest' same = refl
  >>=_congr (ok value) rest rest' same = same value

-- a step that follows from each branch of a test, where the result of the branch is known
pub by_test {ℓ κ} :
    {T : Type ℓ} {P : Type κ} {a b c : T} (test : Bool)
    → (if test then a else b) ≡ c
    → (a ≡ c → P)
    → (b ≡ c → P)
    → P
by_test false result then_case else_case = else_case result
by_test true result then_case else_case = then_case result

pub >>=_assoc {ℓ κ μ} :
    {E : Type 0} {T : Type ℓ} {U : Type κ} {W : Type μ} (step : Result E T) (f : T → Result E U)
    (g : U → Result E W)
    → (step >>= f >>= g) ≡ (step >>= λ value. f value >>= g)
>>=_assoc (err reason) f g = refl
>>=_assoc (ok value) f g = refl

pub guard-ok : {E : Type 0} (test : Bool) (reason : E) → guard test reason ≡ ok tt → test ≡ true
guard-ok false reason success = cc
guard-ok true reason success = refl

pub Result-cases {ℓ} :
    {E : Type 0} {T : Type ℓ} (r : Result E T)
    → ((value : T) × (r ≡ ok value)) ⊎ ((reason : E) × (r ≡ err reason))
Result-cases (err reason) = inr (reason, refl)
Result-cases (ok value) = inl (value, refl)

pub ok_or-some {ℓ} :
    {E : Type 0} {T : Type ℓ} (found : Option T) (reason : E) {value : T}
    → ok_or found reason ≡ ok value
    → found ≡ some value
ok_or-some none reason success = cc
ok_or-some (some value) reason success = cc

pub ok_unique {ℓ} :
    {E : Type 0} {T : Type ℓ} {a b : T} (r : Result E T) → r ≡ ok a → r ≡ ok b → a ≡ b
ok_unique r first second = cc
