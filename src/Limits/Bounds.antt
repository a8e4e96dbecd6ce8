-- ===== src/Limits/Bounds.antt =====
-- `Validate` against the bounds that it stands for.
use go_graphics.Common.{
  if◌then◌else◌, ◌||◌, ◌&&◌, refl, [], ◌∷◌, ℕ, ◌≡◌, ◌⊎◌, All, false, arith, List, Bool, String,
  ◌||◌, none, not, ◌↔◌, same, ◌&&◌, inl, Bool-cases, same_eq, subst, inr, true, same_refl, some,
}
use go_graphics.Limits.{Rate, Policy, ℤ, outside, pos, rates, any_wild, validate, is_wild}
use go_graphics.Common.Int.{◌≤ℤ◌, ltb_ℤ}

abbrev pub IsWithin : ℕ → ℕ → ℤ → Type 0
IsWithin low high z = (pos low ≤ℤ z) × (z ≤ℤ pos high)

pub record IsTame (r : Rate) : Type 0 where
  pub per_minute : IsWithin 1 120000 r.per_minute
  pub burst : IsWithin 1 10000 r.burst

pub record IsSafe (p : Policy) : Type 0 where
  pub profile : (p.profile ≡ "production") ⊎ (p.profile ≡ "local-capacity")
  pub read_ip : IsTame p.read_ip
  pub asset_ip : IsTame p.asset_ip
  pub start_ip : IsTame p.start_ip
  pub generate_ip : IsTame p.generate_ip
  pub generate_visitor : IsTame p.generate_visitor
  pub visitor_jobs : IsWithin 4 32 p.visitor_jobs
  pub outstanding : (p.visitor_jobs ≤ℤ p.outstanding) × (p.outstanding ≤ℤ pos 256)
  pub queue_age : IsWithin 30 300 p.queue_age_seconds
  pub readers : IsWithin 1 128 p.image_readers
  pub buffer : IsWithin 16 128 p.image_buffer_mib
  pub wait : IsWithin 0 5000 p.image_wait_ms

outside-IsWithin : (low high : ℕ) (z : ℤ) → outside low high z ≡ false → IsWithin low high z
outside-IsWithin low high z e = (ground (arith, e), ground (arith, e))

IsWithin-outside : (low high : ℕ) (z : ℤ) → IsWithin low high z → outside low high z ≡ false
IsWithin-outside low high z e = ground (arith, e.0, e.1)

is_wild-IsTame : (r : Rate) → is_wild r ≡ false → IsTame r
is_wild-IsTame r e = record {
  per_minute = outside-IsWithin 1 120000 r.per_minute (ground (arith, e));
  burst = outside-IsWithin 1 10000 r.burst (ground (arith, e));
}

IsTame-is_wild : (r : Rate) → IsTame r → is_wild r ≡ false
IsTame-is_wild r t = ground (
  arith,
  IsWithin-outside 1 120000 r.per_minute t.per_minute,
  IsWithin-outside 1 10000 r.burst t.burst,
)

any_wild-All : (rs : List Rate) → any_wild rs ≡ false → All IsTame rs
any_wild-All [] e = tt
any_wild-All (r ∷ rs) e =
    (is_wild-IsTame r (ground (arith, e)), any_wild-All rs (ground (arith, e)))

All-any_wild : (rs : List Rate) → All IsTame rs → any_wild rs ≡ false
All-any_wild [] t = refl
All-any_wild (r ∷ rs) (t, ts) = ground (arith, IsTame-is_wild r t, All-any_wild rs ts)

abbrev bad_profile : Policy → Bool
bad_profile p = not (same p.profile "production") && not (same p.profile "local-capacity")

abbrev bad_jobs : Policy → Bool
bad_jobs p =
    outside 4 32 p.visitor_jobs
    || (ltb_ℤ p.outstanding p.visitor_jobs || ltb_ℤ (pos 256) p.outstanding)

abbrev bad_images : Policy → Bool
bad_images p =
    outside 1 128 p.image_readers
    || (outside 16 128 p.image_buffer_mib || outside 0 5000 p.image_wait_ms)

-- The five tests of `Validate`.
record Passes (p : Policy) : Type 0 where
  profile : bad_profile p ≡ false
  rates_tame : any_wild (rates p) ≡ false
  jobs : bad_jobs p ≡ false
  age : outside 30 300 p.queue_age_seconds ≡ false
  images : bad_images p ≡ false

chain :
    (a b c d e : Bool) (s t u v w : String)
    → (if a
        then some s
        else if b
        then some t
        else if c
        then some u
        else if d
        then some v
        else if e
        then some w
        else none)
      ≡ none
    → (a ≡ false) × (b ≡ false) × (c ≡ false) × (d ≡ false) × (e ≡ false)
chain a b c d e s t u v w h = ground arith

validate-Passes : (p : Policy) → validate p ≡ none → Passes p
unfolding validate
validate-Passes p e =
    let (a, b, c, d, f) =
      chain (bad_profile p) (any_wild (rates p)) (bad_jobs p) (outside 30 300 p.queue_age_seconds)
        (bad_images p) _ _ _ _ _ e in
    record { profile = a; rates_tame = b; jobs = c; age = d; images = f }

Passes-validate : (p : Policy) → Passes p → validate p ≡ none
unfolding validate
Passes-validate p t = rw (t.profile, t.rates_tame, t.jobs, t.age, t.images) refl

known_profile :
    (s : String)
    → (not (same s "production") && not (same s "local-capacity")) ≡ false
    → (s ≡ "production") ⊎ (s ≡ "local-capacity")
known_profile s e = elim (Bool-cases (same s "production")) [
  | inl p ↦ inl (same_eq s "production" p)
  | inr n ↦ inr (same_eq s "local-capacity" (ground (arith, n, e)))
]

profile_known :
    (s : String)
    → (s ≡ "production") ⊎ (s ≡ "local-capacity")
    → (not (same s "production") && not (same s "local-capacity")) ≡ false
profile_known s (inl p) = ground (arith, subst (λ k. same s k ≡ true) p (same_refl s))
profile_known s (inr p) = ground (arith, subst (λ k. same s k ≡ true) p (same_refl s))

Passes-IsSafe : (p : Policy) → Passes p → IsSafe p
Passes-IsSafe p t =
    let tame = any_wild-All (rates p) t.rates_tame in
    record {
      profile = known_profile p.profile t.profile;
      read_ip = tame.0;
      asset_ip = tame.1.0;
      start_ip = tame.1.1.0;
      generate_ip = tame.1.1.1.0;
      generate_visitor = tame.1.1.1.1.0;
      visitor_jobs = outside-IsWithin 4 32 p.visitor_jobs (ground (arith, t.jobs));
      outstanding = (ground (arith, t.jobs), ground (arith, t.jobs));
      queue_age = outside-IsWithin 30 300 p.queue_age_seconds t.age;
      readers = outside-IsWithin 1 128 p.image_readers (ground (arith, t.images));
      buffer = outside-IsWithin 16 128 p.image_buffer_mib (ground (arith, t.images));
      wait = outside-IsWithin 0 5000 p.image_wait_ms (ground (arith, t.images));
    }

IsSafe-Passes : (p : Policy) → IsSafe p → Passes p
IsSafe-Passes p s = record {
  profile = profile_known p.profile s.profile;
  rates_tame =
      All-any_wild (rates p)
        (s.read_ip, (s.asset_ip, (s.start_ip, (s.generate_ip, (s.generate_visitor, tt)))));
  jobs = ground (arith, s.outstanding, IsWithin-outside 4 32 p.visitor_jobs s.visitor_jobs);
  age = IsWithin-outside 30 300 p.queue_age_seconds s.queue_age;
  images = ground (
    arith,
    IsWithin-outside 1 128 p.image_readers s.readers,
    IsWithin-outside 16 128 p.image_buffer_mib s.buffer,
    IsWithin-outside 0 5000 p.image_wait_ms s.wait,
  );
}

pub validate_lem : (p : Policy) → (validate p ≡ none) ↔ IsSafe p
validate_lem p =
    (λ e. Passes-IsSafe p (validate-Passes p e), λ s. Passes-validate p (IsSafe-Passes p s))
