-- ===== src/Studio/Samples.antt =====
-- A small queue, a catalogue of one recipe and a few calls, for the tests.
use go_graphics.Common.{ℕ, zero, suc, ◌+◌, ◌*◌, String, [], ◌∷◌, map, length, some}
use go_graphics.Artwork.{Recipe}
use go_graphics.Explore.{Candidate}
use go_graphics.RenderJob.Model.{ok, expired, minute}
use go_graphics.Studio.Model.{Store, Services, Ambient, Jobs}
use go_graphics.Studio.System.{new_store}

abbrev pub test_queue : Jobs ℕ
test_queue = record {
  admit = λ owner qs n. (ok (map (λ q. "job") qs), n + length qs);
  status = λ n owner id. record { id = id; state = expired; message = "" };
  cancel = λ owner id n. suc n;
}

abbrev pub test_recipe : Recipe
test_recipe = record {
  canonical = "{}";
  id = "pools";
  seed = "7";
  pal = "cezanne-bathers";
  traits = [];
}

abbrev pub test_candidate : ℕ → Candidate
test_candidate seed = record { seed = seed; traits = []; mode = "explore"; parent = 0 }

abbrev pub test_services : Services (Unit {0}) ℕ
test_services = record {
  queue = test_queue;
  space = λ id. ok tt;
  complete = λ id seed pal traits. ok test_recipe;
  validate = λ raw. ok test_recipe;
  public = λ space pins parents seed round recent.
      ok (test_candidate seed ∷ test_candidate (suc seed) ∷ []);
  selection_digest = λ revision selected different. "digest";
  recipe_digest = λ raw. raw;
}

abbrev pub test_token : ℕ → String
test_token zero = "first"
test_token (suc zero) = "second"
test_token (suc (suc n)) = "third"

abbrev pub test_ambient : ℕ → Ambient
test_ambient n = record { now = n * minute; token = test_token; entropy = ok 5 }

abbrev pub test_action : String
test_action = "0123456789abcdef0123456789abcdef0123456789abcdef"

abbrev pub empty_store : Store ℕ
empty_store = new_store (some 0) "build"
