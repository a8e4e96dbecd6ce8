-- ===== src/Common/Tests.antt =====
-- Boolean tests on numbers and texts, and the conditional.
use Prim.Native.Nat.{ℕ, compare, Ordering}
use Prim.Native.String.{String}
use mathlib.Core.Path.{◌≡◌, refl}
use mathlib.Core.Logic.{◌⊎◌, inl, inr}
use mathlib.Core.Bool.{Bool, true, false}
use mathlib.Core.Option.{Option, none, some}
use native.Mathlib.Omega.{arith}
use text.Mathlib.Text.{◌==◌ as str_eq}
use text.Mathlib.TextEquality.{eq_iff}

-- These compute to `compare`, which the tactics read.
abbrev pub ltb : ℕ → ℕ → Bool
ltb a b = elim (compare a b) [ Ordering.lt ↦ true | _ ↦ false ]

abbrev pub leb : ℕ → ℕ → Bool
leb a b = elim (compare a b) [ Ordering.gt ↦ false | _ ↦ true ]

infix 50 ◌==◌
abbrev pub ◌==◌ : ℕ → ℕ → Bool
a == b = elim (compare a b) [ Ordering.eq ↦ true | _ ↦ false ]

infix 1 if◌then◌else◌
abbrev pub if◌then◌else◌ {ℓ} : {A : Type ℓ} → Bool → A → A → A
if true then x else y = x
if false then x else y = y

-- What holds on both branches holds of the conditional.
pub if_both {ℓ κ} :
    {A : Type ℓ} (P : A → Type κ) (b : Bool) (x y : A) → P x → P y → P (if b then x else y)
if_both P true x y p q = p
if_both P false x y p q = q

pub if_true {ℓ} : {A : Type ℓ} (b : Bool) (x y z : A) → b ≡ true → (if b then x else y) ≡ z → x ≡ z
if_true true x y z e f = f
if_true false x y z e f = absurd (ground arith)

pub if_false {ℓ} :
    {A : Type ℓ} (b : Bool) (x y z : A) → b ≡ false → (if b then x else y) ≡ z → y ≡ z
if_false true x y z e f = absurd (ground arith)
if_false false x y z e f = f

-- To split on a computed value and keep the equation.
pub Bool-cases : (b : Bool) → (b ≡ true) ⊎ (b ≡ false)
Bool-cases true = inl refl
Bool-cases false = inr refl

pub Option-cases {ℓ} : {A : Type ℓ} (o : Option A) → (o ≡ none) ⊎ ((a : A) × (o ≡ some a))
Option-cases none = inl refl
Option-cases (some a) = inr (a, refl)

pub some_inj {ℓ} : {A : Type ℓ} {a b : A} → some a ≡ some b → a ≡ b
some_inj e = cc

decided : (s t : String) (b : Bool) → str_eq s t ≡ b → Dec (s ≡ t)
decided s t true e = yes ((eq_iff s t).0 e)
decided s t false e = no (λ p. ground (arith, (eq_iff s t).1 p))

-- Go's `==` on strings.
unfoldable pub String-discrete : Discrete String
unfolding decided
String-discrete s t = decided s t (str_eq s t) refl

abbrev pub same : String → String → Bool
same s t = elim (String-discrete s t) [ yes _ ↦ true | no _ ↦ false ]

pub same_eq : (s t : String) → same s t ≡ true → s ≡ t
same_eq s t e = elim (String-discrete s t) [ yes p ↦ p | no np ↦ absurd (ground arith) ]

pub same_refl : (s : String) → same s s ≡ true
same_refl s = ground arith

abbrev pub bit : Bool → ℕ
bit true = 1
bit false = 0
