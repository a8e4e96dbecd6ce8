-- ===== src/Studio/Sound/Keeping.antt =====
-- Handlers that leave a predicate of the store behind, on their way through errors.
use go_graphics.Common.{Bool, true, false, Option, none, some, ◌≡◌, refl, if◌then◌else◌}
use go_graphics.RenderJob.Model.{Result, ok, err, Error}
use go_graphics.Studio.Model.{Store, Operation, continue, after_check, or_fail}

unfoldable pub Leaves : {A J : Type 0} → (Store J → Type 0) → Result A × Store J → Type 0
Leaves P r = P r.1

module _ {A J : Type 0} (P : Store J → Type 0) where
  pub leaves : (r : Result A) (s : Store J) → P s → Leaves P (r, s)
  unfolding Leaves
  leaves r s p = p

  pub left : (r : Result A × Store J) → Leaves P r → P r.1
  unfolding Leaves
  left r p = p

  pub as_left : (r : Result A × Store J) → P r.1 → Leaves P r
  unfolding Leaves
  as_left r p = p

  pub if_keeps :
      (b : Bool) (x y : Result A × Store J)
      → Leaves P x
      → Leaves P y
      → Leaves P (if b then x else y)
  if_keeps true x y p q = p
  if_keeps false x y p q = q

module _ {A J : Type 0} (P : Store J → Type 0) where
  pub fail_keeps :
      (b : Bool) (e : Error) (s : Store J) (y : Result A × Store J)
      → P s
      → Leaves P y
      → Leaves P (if b then (err e, s) else y)
  unfolding Leaves
  fail_keeps true e s y p q = p
  fail_keeps false e s y p q = q

module _ {A B J : Type 0} (P : Store J → Type 0) where
  pub continue_keeps :
      (Q : A → Store J → Type 0) (next : A → Operation J B) (r : Result A × Store J)
      → Leaves P r
      → ((a : A) → r.0 ≡ ok a → Q a r.1)
      → ((a : A) (s : Store J) → P s → Q a s → Leaves P (next a s))
      → Leaves P (continue next r)
  unfolding Leaves
  continue_keeps Q next (err e, s) p q step = p
  continue_keeps Q next (ok a, s) p q step = step a s p (q a refl)

  pub after_check_keeps :
      (r : Result A) (next : Operation J B) (s : Store J)
      → P s
      → Leaves P (next s)
      → Leaves P (after_check r next s)
  unfolding Leaves
  after_check_keeps (err e) next s p q = p
  after_check_keeps (ok a) next s p q = q

  pub or_fail_keeps :
      (e : Error) (o : Option A) (next : A → Operation J B) (s : Store J)
      → P s
      → ((a : A) → o ≡ some a → Leaves P (next a s))
      → Leaves P (or_fail e o next s)
  unfolding Leaves
  or_fail_keeps e none next s p q = p
  or_fail_keeps e (some a) next s p q = q a refl
