-- ===== src/Trait/Tests.antt =====
-- Draws at concrete inputs.
use go_graphics.Trait.Options.{Options, resolve, resolve_lem, set_overrides}
use go_graphics.Common.Names.{contains}
use go_graphics.Trait.Schemas.{validate_schema}
use go_graphics.Trait.Total.{derive_lem, IsDrawn}
use go_graphics.Common.Dict.{lookup, merge, insert}
use go_graphics.Common.{
  String-discrete, refl, ◌≡◌, ℕ, ◌+◌, ◌*◌, true, [], ◌∷◌, ltb, some, All, length, none, String,
}
use go_graphics.Trait.{Float, Dim, Set, draw, derive}
use go_graphics.Trait.Drawing.{draw_boosted, is_drawable}

abbrev pub naturals : Float ℕ
naturals = record {
  nought = 0;
  add = λ x y. x + y;
  times = λ x y. x * y;
  of_int = λ n. n;
  is_positive = λ x. ltb 0 x;
  is_above = λ x y. ltb y x;
}

abbrev pub ground_dim : Dim ℕ
ground_dim = record {
  name = "ground";
  key = "g";
  doc = "";
  in_name = true;
  values =
      record { name = "plain"; weight = 1 }
      ∷ record { name = "wild"; weight = 0 }
      ∷ record { name = "flowing"; weight = 2 }
      ∷ [];
}

abbrev liked_once : Set
liked_once = ("ground", "flowing") ∷ []

draw_boosted_example : is_drawable naturals "plain" ground_dim.values ≡ true
unfolding draw String-discrete lookup
draw_boosted_example = draw_boosted naturals 0 3 (liked_once ∷ []) ground_dim "plain" refl

derive_lem_example :
    (set : Set) × (derive naturals (λ n. 0) (ground_dim ∷ []) ≡ some set)
    × All (IsDrawn naturals set) (ground_dim ∷ [])
    × (length set ≡ 1)
unfolding validate_schema String-discrete contains
derive_lem_example = derive_lem naturals (λ n. 0) (ground_dim ∷ []) refl refl

abbrev pins_wild : Set
pins_wild = ("ground", "wild") ∷ []

abbrev pinned_options : Options ℕ
pinned_options = record { schema = ground_dim ∷ []; raw = []; over = pins_wild }

resolve_lem_example :
    (base : Set) × (set : Set) × (derive naturals (λ n. 0) (ground_dim ∷ []) ≡ some base)
    × (resolve naturals (λ n. 0) pinned_options ≡ some set)
    × ((k v : String) → lookup k pins_wild ≡ some v → lookup k set ≡ some v)
    × ((k : String) → lookup k pins_wild ≡ none → lookup k set ≡ lookup k base)
unfolding validate_schema String-discrete contains set_overrides merge insert lookup
resolve_lem_example =
    resolve_lem naturals (λ n. 0) (record { schema = ground_dim ∷ []; raw = []; over = [] })
      pinned_options pins_wild refl refl (refl, tt) refl
