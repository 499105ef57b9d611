-- ===== src/Base/Results.antt =====
-- Code that may panic: a failed `assert!`, an index out of bounds, an `unwrap` of nothing, or an
-- overflow that Rust's checked arithmetic reports. A loop that is cut off by its fuel is
-- `out_of_fuel`, which is no behaviour of the code: theorems show that it does not occur.
use Prim.Native.Nat.{ℕ, zero, suc}
use mathlib.Core.Path.{◌≡◌, refl, subst}
use mathlib.Core.Bool.{Bool, true, false}
use mathlib.Core.Logic.{◌≢◌}
use mathlib.Core.List.{List, [], ◌∷◌}
use mathlib.Core.Option.{Option, none, some}
use mini_visor.Base.Tests.{ltb, if◌then◌else◌}
use mini_visor.Base.Lists.{length, get_elem?, set, length-set}

pub data Outcome {ℓ} (A : Type ℓ) : Type ℓ where
  done : A → Outcome A
  panic : Outcome A
  out_of_fuel : Outcome A

infixl 5 ◌>>=◌ ◌>>◌
abbrev pub ◌>>=◌ {ℓ κ} : {A : Type ℓ} {B : Type κ} → Outcome A → (A → Outcome B) → Outcome B
done a >>= f = f a
panic >>= f = panic
out_of_fuel >>= f = out_of_fuel

abbrev pub ◌>>◌ {ℓ} : {B : Type ℓ} → Outcome (Unit {0}) → Outcome B → Outcome B
m >> k = m >>= λ _. k

abbrev pub assert : Bool → Outcome (Unit {0})
assert true = done tt
assert false = panic

-- `o.unwrap()` and `o.expect(..)`.
abbrev pub unwrap {ℓ} : {A : Type ℓ} → Option A → Outcome A
unwrap none = panic
unwrap (some a) = done a

module _ {ℓ} {A : Type ℓ} where
  -- `xs[i]` and `xs[i] = v`.
  abbrev pub index : List A → ℕ → Outcome A
  index xs i = unwrap (get_elem? xs i)

  abbrev pub assign : List A → ℕ → A → Outcome (List A)
  assign xs i v = if ltb i (length xs) then done (set xs i v) else panic

-- The code does not loop forever, and a result that it returns satisfies `P`.
pub data Ends {ℓ κ} {A : Type ℓ} (P : A → Type κ) : Outcome A → Type (ℓ ⊔ κ) where
  ends : {a : A} → P a → Ends P (done a)
  panics : Ends P panic

module _ {ℓ κ ι ο} {A : Type ℓ} {B : Type κ} {P : A → Type ι} {Q : B → Type ο} where
  pub Ends-bind :
      {m : Outcome A} {f : A → Outcome B}
      → Ends P m
      → ((a : A) → P a → Ends Q (f a))
      → Ends Q (m >>= f)
  Ends-bind (ends p) q = q _ p
  Ends-bind panics q = panics

module _ {ℓ κ} {A : Type ℓ} {P : A → Type κ} where
  pub Ends-if : (b : Bool) {x y : Outcome A} → Ends P x → Ends P y → Ends P (if b then x else y)
  Ends-if true p q = p
  Ends-if false p q = q

  pub Ends-cases :
      (b : Bool) {x y : Outcome A}
      → (b ≡ true → Ends P x)
      → (b ≡ false → Ends P y)
      → Ends P (if b then x else y)
  Ends-cases true p q = p refl
  Ends-cases false p q = q refl

  pub Ends-ne_out_of_fuel : {r : Outcome A} → Ends P r → r ≢ out_of_fuel
  Ends-ne_out_of_fuel (ends p) e = cc
  Ends-ne_out_of_fuel panics e = cc

  pub of_Ends : {r : Outcome A} (a : A) → Ends P r → r ≡ done a → P a
  of_Ends a (ends {a = b} p) e = let same : b ≡ a = cc in subst P same p
  of_Ends a panics e = cc

module _ {ℓ} {A : Type ℓ} where
  pub Ends-index : (xs : List A) (i : ℕ) → Ends (λ _. Unit {0}) (index xs i)
  Ends-index [] i = panics
  Ends-index (x ∷ xs) zero = ends tt
  Ends-index (x ∷ xs) (suc i) = Ends-index xs i

  pub Ends-assign :
      (xs : List A) (i : ℕ) (v : A) → Ends (λ ys. length ys ≡ length xs) (assign xs i v)
  Ends-assign xs i v = Ends-if (ltb i (length xs)) (ends (length-set xs i v)) panics

pub Ends-assert : (b : Bool) → Ends (λ _. b ≡ true) (assert b)
Ends-assert true = ends refl
Ends-assert false = panics

-- A result that the code returns satisfies `P`.
pub data Yields {ℓ κ} {A : Type ℓ} (P : A → Type κ) : Outcome A → Type (ℓ ⊔ κ) where
  yields : {a : A} → P a → Yields P (done a)
  breaks : Yields P panic
  stops : Yields P out_of_fuel

module _ {ℓ κ ι ο} {A : Type ℓ} {B : Type κ} {P : A → Type ι} {Q : B → Type ο} where
  pub Yields-bind :
      {m : Outcome A} {f : A → Outcome B}
      → Yields P m
      → ((a : A) → P a → Yields Q (f a))
      → Yields Q (m >>= f)
  Yields-bind (yields p) q = q _ p
  Yields-bind breaks q = breaks
  Yields-bind stops q = stops

module _ {ℓ κ} {A : Type ℓ} {P : A → Type κ} where
  pub Yields-cases :
      (b : Bool) {x y : Outcome A}
      → (b ≡ true → Yields P x)
      → (b ≡ false → Yields P y)
      → Yields P (if b then x else y)
  Yields-cases true p q = p refl
  Yields-cases false p q = q refl

  pub of_Yields : {r : Outcome A} (a : A) → Yields P r → r ≡ done a → P a
  of_Yields a (yields {a = b} p) e = let same : b ≡ a = cc in subst P same p
  of_Yields a breaks e = cc
  of_Yields a stops e = cc

pub Yields-any {ℓ} : {A : Type ℓ} (r : Outcome A) → Yields (λ _. Unit {0}) r
Yields-any (done a) = yields tt
Yields-any panic = breaks
Yields-any out_of_fuel = stops

module _ {ℓ κ ι} {A : Type ℓ} {P : A → Type κ} {Q : A → Type ι} where
  pub Yields-mono : {r : Outcome A} → Yields P r → ((a : A) → P a → Q a) → Yields Q r
  Yields-mono (yields p) k = yields (k _ p)
  Yields-mono breaks k = breaks
  Yields-mono stops k = stops

module _ {ℓ κ ι ο} {A : Type ℓ} {B : Type κ} (M : Option A → Type ι) (P : B → Type ο) where
  pub Yields-option :
      {m : Outcome (Option A)} {x : Outcome B} {f : A → Outcome B}
      → Yields M m
      → Yields P x
      → ((a : A) → M (some a) → Yields P (f a))
      → Yields P (m >>= λ o. elim o [ none ↦ x | some a ↦ f a ])
  Yields-option (yields {a = none} h) k l = k
  Yields-option (yields {a = some a} h) k l = l a h
  Yields-option breaks k l = breaks
  Yields-option stops k l = stops
