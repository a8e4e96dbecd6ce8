-- ===== src/Opt/Tests.antt =====
-- Knobs at concrete inputs.
use go_graphics.Common.Names.{contains}
use go_graphics.Common.{◌≡◌, refl, ℕ, String, false, List, [], ◌∷◌, ltb, String-discrete, All, ◌⊎◌}
use go_graphics.RenderJob.Model.{ok, err, failure}
use go_graphics.Common.Int.{pos}
use go_graphics.Opt.{Knob, Numbers, Setting, apply_knobs}
use go_graphics.Opt.Applying.{apply_knobs_lem, IsFine, IsFirstBad, mentions}

abbrev numerals : Numbers ℕ
numerals = record {
  is_odd = λ x. false;
  is_below = λ x y. ltb x y;
  show_float = λ x. "f";
  show_int = λ x. "i";
  show_uint = λ x. "u";
}

abbrev two_knobs : List (Knob ℕ)
two_knobs =
    record { name = "grain"; doc = ""; tag = "g"; setting = Setting.float_setting 0 5 9 }
    ∷ record {
      name = "count";
      doc = "";
      tag = "c";
      setting = Setting.int_setting (pos 1) (pos 8) (pos 3);
    }
    ∷ []

abbrev counted : List String
counted = "count" ∷ []

apply_knobs_lem_example :
    (All (IsFine numerals counted) two_knobs
      × (apply_knobs numerals counted two_knobs ≡ ok (mentions numerals counted two_knobs)))
    ⊎ ((name : String) × IsFirstBad numerals counted two_knobs name
        × (apply_knobs numerals counted two_knobs ≡ err (failure name)))
apply_knobs_lem_example = apply_knobs_lem numerals counted two_knobs

-- The count is set and in its range, the grain is out of its range and not set.
applied : mentions numerals counted two_knobs ≡ "-ci"
unfolding contains String-discrete
applied = refl
