-- ===== src/Base/Result.antt =====
-- The result of a C call that works on an object: a value with the object's new state, an error
-- code with the state that the early return leaves, or undefined behaviour. `out_of_fuel` is no
-- result of the code: it says that a loop was given too few rounds.
use Prim.Native.Nat.{ℕ}
use mathlib.Core.Path.{◌≡◌, refl, ap}
use mathlib.Core.Bool.{Bool, true, false}
use mathlib.Core.Option.{Option, none, some}
use libujo_c.Base.Tests.{if◌then◌else◌}

pub data Result {ℓ κ} (S : Type ℓ) (A : Type κ) : Type (ℓ ⊔ κ) where
  ok : A → S → Result S A
  err : ℕ → S → Result S A
  fault : Result S A
  out_of_fuel : Result S A

abbrev pub M {ℓ κ} : Type ℓ → Type κ → Type (ℓ ⊔ κ)
M S A = S → Result S A

module _ {ℓ κ} {S : Type ℓ} {A : Type κ} where
  abbrev pub pure : A → M S A
  pure a s = ok a s

  abbrev pub fail : ℕ → M S A
  fail code s = err code s

  abbrev pub crash : M S A
  crash s = fault

  -- What a null pointer or an access out of range gives is undefined behaviour.
  abbrev pub deref : Option A → M S A
  deref none = crash
  deref (some a) = pure a

module _ {ℓ} {S : Type ℓ} where
  -- `report_error(expr, message, code)`
  abbrev pub report_error : Bool → ℕ → M S (Unit {0})
  report_error true code s = ok tt s
  report_error false code s = err code s

  abbrev pub modify : (S → S) → M S (Unit {0})
  modify f s = ok tt (f s)

  abbrev pub gets {κ} : {A : Type κ} → (S → A) → M S A
  gets f s = ok (f s) s

-- `return_on_err`
module _ {ℓ κ μ} {S : Type ℓ} {A : Type κ} {B : Type μ} where
  abbrev pub and_then : Result S A → (A → M S B) → Result S B
  and_then (ok a s) f = f a s
  and_then (err code s) f = err code s
  and_then fault f = fault
  and_then out_of_fuel f = out_of_fuel

  infixl 5 ◌>>=◌
  abbrev pub ◌>>=◌ : M S A → (A → M S B) → M S B
  ◌>>=◌ m f s = and_then (m s) f

infixl 5 ◌>>◌
abbrev pub ◌>>◌ {ℓ κ} : {S : Type ℓ} {B : Type κ} → M S (Unit {0}) → M S B → M S B
m >> k = m >>= λ _. k

-- A call whose error code the caller drops.
abbrev pub drop_error {ℓ} : {S : Type ℓ} → M S (Unit {0}) → M S (Unit {0})
drop_error m s = elim (m s) [
  | ok a t ↦ ok tt t
  | err code t ↦ ok tt t
  | fault ↦ fault
  | out_of_fuel ↦ out_of_fuel
]

-- A call that succeeds goes on with what follows.
module _ {ℓ} {S : Type ℓ} where
  pub then_ok {κ} :
      {B : Type κ} (m : M S (Unit {0})) (k : M S B) {s s' : S} → m s ≡ ok tt s' → (m >> k) s ≡ k s'
  then_ok m k e = ap (λ r. and_then r (λ _. k)) e

  pub drop_error_ok : (m : M S (Unit {0})) {s s' : S} → m s ≡ ok tt s' → drop_error m s ≡ ok tt s'
  drop_error_ok m e = rw (drop_error, e)

  -- A check that holds is passed, and one that fails ends the call.
  pub report_error-true {κ} :
      {B : Type κ} (b : Bool) (code : ℕ) (k : M S B) (s : S)
      → b ≡ true
      → (report_error b code >> k) s ≡ k s
  report_error-true b code k s e = rw e

  pub report_error-false {κ} :
      {B : Type κ} (b : Bool) (code : ℕ) (k : M S B) (s : S)
      → b ≡ false
      → (report_error b code >> k) s ≡ err code s
  report_error-false b code k s e = rw e

-- A result other than `out_of_fuel`, with `P` of a value and its state, and `E` of the state that an
-- error leaves.
pub data Ensures {ℓ κ μ} {S : Type ℓ} {A : Type κ} (P : A → S → Type μ) (E : S → Type μ)
    : Result S A → Type (ℓ ⊔ κ ⊔ μ) where
  returns : (a : A) (s : S) → P a s → Ensures P E (ok a s)
  raises : (code : ℕ) (s : S) → E s → Ensures P E (err code s)
  faults : Ensures P E fault

module _ {ℓ κ ν μ} {S : Type ℓ} {A : Type κ} {B : Type ν} {P : A → S → Type μ} {E : S → Type μ}
    {Q : B → S → Type μ} where
  pub Ensures-and_then :
      {r : Result S A} (k : A → M S B)
      → Ensures P E r
      → ((a : A) (s : S) → P a s → Ensures Q E (k a s))
      → Ensures Q E (and_then r k)
  Ensures-and_then k (returns a s h) go = go a s h
  Ensures-and_then k (raises code s h) go = raises code s h
  Ensures-and_then k faults go = faults

module _ {ℓ κ μ} {S : Type ℓ} {A : Type κ} {P : A → S → Type μ} {E : S → Type μ} where
  pub Ensures-if :
      {x y : Result S A} (b : Bool)
      → (b ≡ true → Ensures P E x)
      → (b ≡ false → Ensures P E y)
      → Ensures P E (if b then x else y)
  Ensures-if true t f = t refl
  Ensures-if false t f = f refl

  pub Ensures-weaken :
      {P' : A → S → Type μ} {E' : S → Type μ} {r : Result S A}
      → ((a : A) (s : S) → P a s → P' a s)
      → ((s : S) → E s → E' s)
      → Ensures P E r
      → Ensures P' E' r
  Ensures-weaken f g (returns a s h) = returns a s (f a s h)
  Ensures-weaken f g (raises code s h) = raises code s (g s h)
  Ensures-weaken f g faults = faults
