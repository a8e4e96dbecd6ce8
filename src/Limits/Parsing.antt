-- ===== src/Limits/Parsing.antt =====
-- `Parse`, with and without overrides.
use go_graphics.Common.{
  refl, ◌≡◌, false, arith, String, none, same, inl, Bool-cases, same_eq, subst, inr, true,
  same_refl, Option, some, Option-cases, sym, ◌∙◌, ap, ◌↔◌, ◌||◌, ◌⊎◌,
}
use go_graphics.Limits.{
  Policy, parse, validate, Decoder, override, named_profile, starts_with, defaults, skip_space,
  no_policy, production_policy, local_policy,
}
use go_graphics.Limits.Bounds.{validate_lem, IsSafe}

abbrev Accepts : Policy → Policy × Option String → Type 0
Accepts p r = (q : Policy) → r ≡ (q, none) → (validate q ≡ none) × (q.profile ≡ p.profile)

refused-Accepts : (p z : Policy) (t : String) → Accepts p (z, some t)
refused-Accepts p z t q e = absurd (ground arith)

override-Accepts :
    (d : Decoder) (overrides : String) (p : Policy) → Accepts p (override d overrides p)
override-Accepts d overrides p = elim (Bool-cases (starts_with (skip_space overrides) "{")) [
  | inr other ↦ rw (override, other) (refused-Accepts p no_policy _)
  | inl object ↦ elim (Option-cases (d.decode overrides p)) [
    | inl broken ↦ rw (override, object, broken) (refused-Accepts p no_policy _)
    | inr (q, decoded) ↦ elim (Bool-cases (d.ends overrides)) [
      | inr more ↦ rw (override, object, decoded, more) (refused-Accepts p no_policy _)
      | inl over ↦ elim (Bool-cases (same q.profile p.profile)) [
        | inr changed ↦
            rw (override, object, decoded, over, changed) (refused-Accepts p no_policy _)
        | inl kept ↦
            rw (override, object, decoded, over, kept)
              λ x e.
                let c = ap (λ r. r.0) e in
                (
                  subst (λ y. validate y ≡ none) c (ap (λ r. r.1) e),
                  subst (λ y. y.profile ≡ p.profile) c (same_eq q.profile p.profile kept),
                )
      ]
    ]
  ]
]

override-IsSafe :
    (d : Decoder) (overrides : String) (p q : Policy)
    → override d overrides p ≡ (q, none)
    → IsSafe q × (q.profile ≡ p.profile)
override-IsSafe d overrides p q e =
    let (v, n) = override-Accepts d overrides p q e in ((validate_lem q).0 v, n)

defaults-profile :
    (profile : String)
    → (defaults profile).1 ≡ none
    → (defaults profile).0.profile ≡ named_profile profile
unfolding defaults
defaults-profile profile e = ground arith

module _ (d : Decoder) (profile overrides : String) (known : (defaults profile).1 ≡ none) where
  parse_plain :
      same overrides "" ≡ true
      → parse d profile overrides ≡ ((defaults profile).0, validate (defaults profile).0)
  unfolding parse
  parse_plain e = rw (known, e, parse) refl

  parse_given :
      same overrides "" ≡ false
      → parse d profile overrides ≡ override d overrides (defaults profile).0
  unfolding parse
  parse_given e = rw (known, e, parse) refl

-- If `Parse` returns a policy and no error, whatever the overrides and the decoder, the numbers of
-- the policy are within their bounds, and its profile is the one that was asked for, or production
-- if none was.
pub parse-IsSafe :
    (d : Decoder) (profile overrides : String) (p : Policy)
    → parse d profile overrides ≡ (p, none)
    → IsSafe p × (p.profile ≡ named_profile profile)
unfolding parse
parse-IsSafe d profile overrides p e = elim (Option-cases (defaults profile).1) [
  | inr (t, unknown) ↦ absurd (ground (arith, unknown, e))
  | inl known ↦ elim (Bool-cases (same overrides "")) [
    | inl plain ↦
        let h = sym (parse_plain d profile overrides known plain) ∙ e in
        let c = ap (λ r. r.0) h in
        (
          subst IsSafe c ((validate_lem (defaults profile).0).0 (ap (λ r. r.1) h)),
          subst (λ q. q.profile ≡ named_profile profile) c (defaults-profile profile known),
        )
    | inr given ↦
        let h = sym (parse_given d profile overrides known given) ∙ e in
        let (s, n) = override-IsSafe d overrides (defaults profile).0 p h in
        (s, n ∙ defaults-profile profile known)
  ]
]

production-validate :
    (s : String) → same s "production" ≡ true → validate (production_policy s) ≡ none
unfolding validate
production-validate s e = rw e refl

local-validate :
    (s : String)
    → same s "production" ≡ false
    → same s "local-capacity" ≡ true
    → validate (local_policy s) ≡ none
unfolding validate
local-validate s n e = rw (n, e) refl

defaults-validate :
    (profile : String) → (defaults profile).1 ≡ none → validate (defaults profile).0 ≡ none
unfolding defaults
defaults-validate profile e = elim (Bool-cases (same (named_profile profile) "production")) [
  | inl production ↦
      rw (defaults, production) (production-validate (named_profile profile) production)
  | inr other ↦ elim (Bool-cases (same (named_profile profile) "local-capacity")) [
    | inl local ↦ rw (defaults, other, local) (local-validate (named_profile profile) other local)
    | inr unknown ↦ absurd (ground (arith, e, other, unknown))
  ]
]

-- Without overrides, `Parse` is `Defaults`: it fails on an unknown profile only, since the
-- defaults of each named profile pass the validation.
pub parse_plain_lem : (d : Decoder) (profile : String) → parse d profile "" ≡ defaults profile
unfolding parse
parse_plain_lem d profile = elim (Option-cases (defaults profile).1) [
  | inr (t, unknown) ↦ rw (parse, unknown) refl
  | inl known ↦
      parse_plain d profile "" known (same_refl "")
      ∙ (λ i. ((defaults profile).0, (defaults-validate profile known ∙ sym known) i))
]

override_accepts :
    (d : Decoder) (overrides : String) (p q : Policy)
    → starts_with (skip_space overrides) "{" ≡ true
    → d.decode overrides p ≡ some q
    → d.ends overrides ≡ true
    → q.profile ≡ p.profile
    → validate q ≡ none
    → override d overrides p ≡ (q, none)
override_accepts d overrides p q object decoded over kept fine =
    let equal : same q.profile p.profile ≡ true =
      subst (λ k. same q.profile k ≡ true) kept (same_refl q.profile) in
    rw (override, object, decoded, over, equal, fine) refl

given_object :
    (overrides : String) → starts_with (skip_space overrides) "{" ≡ true → same overrides "" ≡ false
unfolding skip_space
given_object overrides object = elim (Bool-cases (same overrides "")) [
  | inr given ↦ given
  | inl empty ↦ absurd (
      ground (
        arith,
        subst (λ t. starts_with (skip_space t) "{" ≡ true) (same_eq overrides "" empty) object,
      ))
]

known_default :
    (s : String)
    → (s ≡ "production") ⊎ (s ≡ "local-capacity")
    → (same s "production" || same s "local-capacity") ≡ true
known_default s (inl p) = ground (arith, subst (λ k. same s k ≡ true) p (same_refl s))
known_default s (inr p) = ground (arith, subst (λ k. same s k ≡ true) p (same_refl s))

safe_known :
    (profile : String) (p : Policy)
    → IsSafe p
    → p.profile ≡ named_profile profile
    → (defaults profile).1 ≡ none
unfolding defaults
safe_known profile p safe named =
    let known : (same (named_profile profile) "production"
          || same (named_profile profile) "local-capacity")
        ≡ true =
      subst (λ s. (same s "production" || same s "local-capacity") ≡ true) named
        (known_default p.profile safe.profile) in
    elim (Bool-cases (same (named_profile profile) "production")) [
      | inl production ↦ rw (defaults, production) refl
      | inr other ↦ elim (Bool-cases (same (named_profile profile) "local-capacity")) [
        | inl local ↦ rw (defaults, other, local) refl
        | inr unknown ↦ absurd (ground (arith, known, other, unknown))
      ]
    ]

-- Let the overrides be the text of one object that decodes, over the defaults, to a policy. Then `Parse`
-- returns that policy without an error exactly if its profile is the one that was asked for, or production
-- if none was, and is a known one, each of the five rates is from 1 to 120000 a minute with a burst from 1 to
-- 10000, and the six other numbers are within their bounds.
pub parse_lem :
    (d : Decoder) (profile overrides : String) (p : Policy)
    → starts_with (skip_space overrides) "{" ≡ true
    → d.decode overrides (defaults profile).0 ≡ some p
    → d.ends overrides ≡ true
    → (parse d profile overrides ≡ (p, none)) ↔ (IsSafe p × (p.profile ≡ named_profile profile))
parse_lem d profile overrides p object decoded over = (
  parse-IsSafe d profile overrides p,
  λ (safe, named).
      let known = safe_known profile p safe named in
      parse_given d profile overrides known (given_object overrides object)
      ∙ override_accepts d overrides (defaults profile).0 p object decoded over
          (named ∙ sym (defaults-profile profile known)) ((validate_lem p).1 safe),
)
