-- ===== src/Base/Results.antt =====
-- Rust's `Result<A, E>` with `?` as bind, and the signed numbers.
use Prim.Native.Nat.{ℕ}
use mathlib.Core.Path.{◌≡◌}
use mathlib.Core.Logic.{◌⊎◌, inl, inr}
use mathlib.Core.Path.{refl}

pub data Result {ℓ κ} (E : Type κ) (A : Type ℓ) : Type (ℓ ⊔ κ) where
  ok : A → Result E A
  err : E → Result E A

infixl 5 ◌>>=◌ ◌>>◌
abbrev pub ◌>>=◌ {ℓ κ ι} :
    {E : Type κ} {A : Type ℓ} {B : Type ι} → Result E A → (A → Result E B) → Result E B
ok a >>= f = f a
err e >>= f = err e

abbrev pub ◌>>◌ {ℓ κ ι} :
    {E : Type κ} {A : Type ℓ} {B : Type ι} → Result E A → Result E B → Result E B
m >> k = m >>= λ _. k

pub Result-cases {ℓ κ} :
    {E : Type κ} {A : Type ℓ} (r : Result E A) → ((a : A) × (r ≡ ok a)) ⊎ ((e : E) × (r ≡ err e))
Result-cases (ok a) = inl (a, refl)
Result-cases (err e) = inr (e, refl)

-- `i32`: `negsuc n` is -(n + 1).
pub data ℤ : Type 0 where
  pos : ℕ → ℤ
  negsuc : ℕ → ℤ

-- What a chain that succeeds has come through: its first step, and the rest from there.
pub >>=-ok {ℓ κ ι} :
    {E : Type κ} {A : Type ℓ} {B : Type ι} {end : B} (step : Result E A) (rest : A → Result E B)
    → step >>= rest ≡ ok end
    → (middle : A) × (step ≡ ok middle) × (rest middle ≡ ok end)
>>=-ok (err failure) rest h = cc
>>=-ok (ok middle) rest h = (middle, refl, h)
