-- ===== src/Base/Results.antt =====
-- Errors as values, and integers over the native numbers.
use Prim.Native.Nat.{ℕ, compare, Ordering}
use mathlib.Core.Path.{◌≡◌, refl, subst}
use mathlib.Core.Bool.{Bool, true, false}
use contain.Base.Tests.{if◌then◌else◌}
use mathlib.Core.List.{List, [], ◌∷◌}
use mathlib.Core.Option.{Option, none, some}

-- What a function returns that may return a Go error: the error, or else the value.
pub data Result {ℓ κ} (E : Type κ) (A : Type ℓ) : Type (ℓ ⊔ κ) where
  err : (failure : E) → Result E A
  ok : (value : A) → Result E A

module _ {κ} {E : Type κ} where
  -- The value of an option, or the given error.
  abbrev pub or_err {ℓ} : {A : Type ℓ} → Option A → E → Result E A
  or_err (some found) _ = ok found
  or_err none failure = err failure

  -- `if !c { return err }`
  abbrev pub guard : Bool → E → Result E (Unit {0})
  guard c failure = if c then ok tt else err failure

  -- `if err != nil { return err }`, after which the rest goes on with the value.
  infixl 5 ◌>>=◌
  abbrev pub ◌>>=◌ {ℓ μ} : {A : Type ℓ} {B : Type μ} → Result E A → (A → Result E B) → Result E B
  ◌>>=◌ (err failure) rest = err failure
  ◌>>=◌ (ok value) rest = rest value

  infixl 5 ◌>>◌
  abbrev pub ◌>>◌ {ℓ} : {B : Type ℓ} → Result E (Unit {0}) → Result E B → Result E B
  ◌>>◌ checked rest = checked >>= (λ _. rest)

  -- Every element, until the first error.
  abbrev pub map_ok {ℓ μ} :
      {A : Type ℓ} {B : Type μ} → (A → Result E B) → List A → Result E (List B)
  map_ok f [] = ok []
  map_ok f (a ∷ more) = do b ← f a; bs ← map_ok f more; ok (b ∷ bs)

-- What holds of every result that is not an error.
module _ {κ ℓ μ} {E : Type κ} {A : Type ℓ} (P : A → Type μ) where
  abbrev pub Holds : Result E A → Type μ
  Holds (ok a) = P a
  Holds (err e) = Unit

  pub Holds-if :
      (b : Bool) (x y : Result E A)
      → (b ≡ true → Holds x)
      → (b ≡ false → Holds y)
      → Holds (if b then x else y)
  Holds-if true x y hx hy = hx refl
  Holds-if false x y hx hy = hy refl

  pub Holds->>= {ν} :
      {B : Type ν} (m : Result E B) (f : B → Result E A)
      → ((b : B) → m ≡ ok b → Holds (f b))
      → Holds (m >>= f)
  Holds->>= (ok b) f h = h b refl
  Holds->>= (err e) f h = tt

  pub Holds-of : (r : Result E A) {a : A} → Holds r → r ≡ ok a → P a
  Holds-of r h e = subst Holds e h

pub data ℤ : Type 0 where
  pos negsuc : ℕ → ℤ

-- `limit > 0 && n > limit`
abbrev pub exceeds : ℕ → ℤ → Bool
exceeds n (negsuc m) = false
exceeds n (pos m) = elim (compare 0 m) [
  | Ordering.lt ↦ elim (compare m n) [ Ordering.lt ↦ true | _ ↦ false ]
  | _ ↦ false
]
