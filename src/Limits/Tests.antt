-- ===== src/Limits/Tests.antt =====
-- The properties of internal/limits at concrete inputs.
use go_graphics.Common.{String-discrete, refl, true, some, none, ◌≡◌, ◌↔◌}
use go_graphics.Common.Int.{pos}
use go_graphics.Limits.Bounds.{IsSafe}
use go_graphics.Limits.Parsing.{parse-IsSafe, parse_plain_lem, parse_lem}
use go_graphics.Limits.{
  Decoder, validate, parse, Policy, production_policy, defaults, skip_space, named_profile,
}

abbrev slow_policy : Policy
slow_policy = record (production_policy "production") { image_wait_ms = pos 5000 }

abbrev decoder : Decoder
decoder = record { decode = λ text p. some slow_policy; ends = λ text. true }

parsed : parse decoder "" " {\"image_wait_ms\": 5000}" ≡ (slow_policy, none)
unfolding parse defaults validate skip_space String-discrete
parsed = refl

parse-IsSafe_example : IsSafe slow_policy × (slow_policy.profile ≡ named_profile "")
parse-IsSafe_example = parse-IsSafe decoder "" " {\"image_wait_ms\": 5000}" slow_policy parsed

parse_plain_lem_example : parse decoder "local-capacity" "" ≡ defaults "local-capacity"
parse_plain_lem_example = parse_plain_lem decoder "local-capacity"

parse_lem_example :
    (parse decoder "" " {\"image_wait_ms\": 5000}" ≡ (slow_policy, none))
    ↔ (IsSafe slow_policy × (slow_policy.profile ≡ named_profile ""))
unfolding defaults skip_space String-discrete
parse_lem_example = parse_lem decoder "" " {\"image_wait_ms\": 5000}" slow_policy refl refl refl
