-- ===== src/Limits.antt =====
-- internal/limits/policy.go: the policies of the web service. The JSON decoder is a parameter.
pub mod Bounds
pub mod Parsing
mod Tests
use Prim.Native.String.{[] as no_text, ◌∷◌ as char_then}
use Prim.Native.Char.{code}
use text.Mathlib.Text.{starts_with}
use go_graphics.Common.{
  ℕ, String, Bool, true, false, Option, none, some, List, [], ◌∷◌, if◌then◌else◌, ◌||◌, ◌&&◌, not,
  leb, ◌==◌, same,
}
use go_graphics.Common.Int.{ℤ, pos, ltb_ℤ}

pub record Rate : Type 0 where
  pub per_minute : ℤ
  pub burst : ℤ

pub record Policy : Type 0 where
  pub profile : String
  pub read_ip : Rate
  pub asset_ip : Rate
  pub start_ip : Rate
  pub generate_ip : Rate
  pub generate_visitor : Rate
  pub outstanding : ℤ
  pub visitor_jobs : ℤ
  pub queue_age_seconds : ℤ
  pub image_readers : ℤ
  pub image_buffer_mib : ℤ
  pub image_wait_ms : ℤ

abbrev pub rate : ℕ → ℕ → Rate
rate n b = record { per_minute = pos n; burst = pos b }

-- `Policy{}`
abbrev pub no_policy : Policy
no_policy = record {
  profile = "";
  read_ip = rate 0 0;
  asset_ip = rate 0 0;
  start_ip = rate 0 0;
  generate_ip = rate 0 0;
  generate_visitor = rate 0 0;
  outstanding = pos 0;
  visitor_jobs = pos 0;
  queue_age_seconds = pos 0;
  image_readers = pos 0;
  image_buffer_mib = pos 0;
  image_wait_ms = pos 0;
}

abbrev pub production_policy : String → Policy
production_policy profile = record {
  profile = profile;
  read_ip = rate 1200 120;
  asset_ip = rate 3000 300;
  start_ip = rate 60 12;
  generate_ip = rate 120 24;
  generate_visitor = rate 30 6;
  outstanding = pos 16;
  visitor_jobs = pos 4;
  queue_age_seconds = pos 120;
  image_readers = pos 32;
  image_buffer_mib = pos 64;
  image_wait_ms = pos 2000;
}

abbrev pub local_policy : String → Policy
local_policy profile = record (production_policy profile) {
  read_ip = rate 60000 4000;
  asset_ip = rate 60000 4000;
  start_ip = rate 12000 400;
  generate_ip = rate 12000 400;
  generate_visitor = rate 600 30;
  outstanding = pos 64;
}

abbrev pub named_profile : String → String
named_profile profile = if same profile "" then "production" else profile

-- A Go function's two results: the policy, and the text of the error if there is one.
unfoldable pub defaults : String → Policy × Option String
defaults profile =
    let name = named_profile profile in
    if same name "production"
    then (production_policy name, none)
    else if same name "local-capacity"
    then (local_policy name, none)
    else (no_policy, some "unknown limits profile")

-- `z < low || z > high`
abbrev pub outside : ℕ → ℕ → ℤ → Bool
outside low high z = ltb_ℤ z (pos low) || ltb_ℤ (pos high) z

abbrev pub is_wild : Rate → Bool
is_wild r = outside 1 120000 r.per_minute || outside 1 10000 r.burst

-- The loop of `Validate` over the rates.
abbrev pub any_wild : List Rate → Bool
any_wild [] = false
any_wild (r ∷ rs) = is_wild r || any_wild rs

abbrev pub rates : Policy → List Rate
rates p = p.read_ip ∷ p.asset_ip ∷ p.start_ip ∷ p.generate_ip ∷ p.generate_visitor ∷ []

unfoldable pub validate : Policy → Option String
validate p =
    if not (same p.profile "production") && not (same p.profile "local-capacity")
    then some "invalid limits profile"
    else if any_wild (rates p)
    then some "rate must be 1..120000/minute, burst 1..10000"
    else if outside 4 32 p.visitor_jobs
        || (ltb_ℤ p.outstanding p.visitor_jobs || ltb_ℤ (pos 256) p.outstanding)
    then some "visitor jobs must be 4..32 and outstanding between visitor jobs and 256"
    else if outside 30 300 p.queue_age_seconds
    then some "queue age must be 30..300 seconds"
    else if outside 1 128 p.image_readers
        || (outside 16 128 p.image_buffer_mib || outside 0 5000 p.image_wait_ms)
    then some "invalid image buffer/reader/wait bounds"
    else none

-- `encoding/json`: `Decode` into the policy with unknown fields refused, and whether the next `Decode`
-- meets the end of the text.
pub record Decoder : Type 0 where
  pub decode : String → Policy → Option Policy
  pub ends : String → Bool

-- What `strings.TrimSpace` takes off.
abbrev pub is_space : ℕ → Bool
is_space c =
    (leb 9 c && leb c 13)
    || (c == 32 || c == 133 || c == 160 || c == 5760)
    || (leb 8192 c && leb c 8202)
    || (c == 8232 || c == 8233 || c == 8239 || c == 8287 || c == 12288)

unfoldable pub skip_space : String → String
skip_space no_text = ""
skip_space (char_then c s) =
    let rest = skip_space s in if is_space (code c) then rest else char_then c s

abbrev pub override : Decoder → String → Policy → Policy × Option String
override d overrides p =
    if not (starts_with (skip_space overrides) "{")
    then (no_policy, some "ART_LIMITS_JSON must be an object")
    else elim (d.decode overrides p) [
      | none ↦ (no_policy, some "invalid ART_LIMITS_JSON")
      | some q ↦
          if not (d.ends overrides)
          then (no_policy, some "ART_LIMITS_JSON must contain one object")
          else if not (same q.profile p.profile)
          then (no_policy, some "set profile with ART_LIMITS_PROFILE, not JSON")
          else (q, validate q)
    ]

unfoldable pub parse : Decoder → String → String → Policy × Option String
parse d profile overrides = elim (defaults profile).1 [
  | some e ↦ ((defaults profile).0, some e)
  | none ↦
      if same overrides ""
      then ((defaults profile).0, validate (defaults profile).0)
      else override d overrides (defaults profile).0
]
