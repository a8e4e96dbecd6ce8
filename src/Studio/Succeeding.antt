-- ===== src/Studio/Succeeding.antt =====
-- What it takes for a handler to succeed: it has passed every check on its way.
use go_graphics.Common.{refl, ◌≡◌, Bool, true, false, Option, some, none, arith, if◌then◌else◌, ap}
use go_graphics.RenderJob.Model.{Result, ok, err, Error}
use go_graphics.Studio.Model.{Store, Operation, continue, after_check, or_fail}
use go_graphics.RenderJob.Protocol.{ok_inj}

module _ {B J : Type 0} where
  pub fail_ok :
      (c : Bool) (e : Error) (s : Store J) (y : Result B × Store J) (b : B) (t : Store J)
      → (if c then (err e, s) else y) ≡ (ok b, t)
      → (c ≡ false) × (y ≡ (ok b, t))
  fail_ok true e s y b t f = absurd (ground arith)
  fail_ok false e s y b t f = (refl, f)

module _ {A B J : Type 0} where
  pub or_fail_ok :
      (e : Error) (o : Option A) (next : A → Operation J B) (s : Store J) (b : B) (t : Store J)
      → or_fail e o next s ≡ (ok b, t)
      → (a : A) × (o ≡ some a) × (next a s ≡ (ok b, t))
  or_fail_ok e none next s b t f = absurd (ground arith)
  or_fail_ok e (some a) next s b t f = (a, refl, f)

  pub after_check_ok :
      (r : Result A) (next : Operation J B) (s : Store J) (b : B) (t : Store J)
      → after_check r next s ≡ (ok b, t)
      → (a : A) × (r ≡ ok a) × (next s ≡ (ok b, t))
  after_check_ok (err e) next s b t f = absurd (ground arith)
  after_check_ok (ok a) next s b t f = (a, refl, f)

  pub continue_ok :
      (next : A → Operation J B) (r : Result A × Store J) (b : B) (t : Store J)
      → continue next r ≡ (ok b, t)
      → (a : A) × (r.0 ≡ ok a) × (next a r.1 ≡ (ok b, t))
  continue_ok next (err e, s) b t f = absurd (ground arith)
  continue_ok next (ok a, s) b t f = (a, refl, f)

  -- A handler that has found what it looks for goes on with it.
  pub continue_with :
      (next : A → Operation J B) (r : Result A × Store J) (a : A)
      → r.0 ≡ ok a
      → continue next r ≡ next a r.1
  continue_with next (err e, s) a f = absurd (ground arith)
  continue_with next (ok a, s) c f = ap (λ z. next z s) (ok_inj f)

  pub continue_answer :
      (next : A → Operation J B) (r : Result A × Store J) (b : B)
      → (continue next r).0 ≡ ok b
      → (a : A) × (r.0 ≡ ok a) × ((next a r.1).0 ≡ ok b)
  continue_answer next (err e, s) b f = absurd (ground arith)
  continue_answer next (ok a, s) b f = (a, refl, f)

  pub or_fail_answer :
      (e : Error) (o : Option A) (next : A → Operation J B) (s : Store J) (b : B)
      → (or_fail e o next s).0 ≡ ok b
      → (a : A) × (o ≡ some a) × ((next a s).0 ≡ ok b)
  or_fail_answer e none next s b f = absurd (ground arith)
  or_fail_answer e (some a) next s b f = (a, refl, f)

  pub after_check_with :
      (r : Result A) (next : Operation J B) (s : Store J) (a : A)
      → r ≡ ok a
      → after_check r next s ≡ next s
  after_check_with (err e) next s a f = absurd (ground arith)
  after_check_with (ok c) next s a f = refl
