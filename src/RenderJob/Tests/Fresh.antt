-- ===== src/RenderJob/Tests/Fresh.antt =====
-- A manager that starts on a directory with a leftover and an image.
use go_graphics.Common.{
  String-discrete, refl, [], ◌∷◌, String, true, false, some, none, ◌*◌, ◌^◌, arith, ◌≡◌,
}
use go_graphics.Common.Int.{pos, ◌+ℤ◌}
use go_graphics.RenderJob.Model.{Manager, Config, ok}
use go_graphics.Common.Texts.{is_hex}
use go_graphics.RenderJob.Start.{
  new, stem, Settings, blank, check_settings, FileEntry, with_defaults, hour, reconcile, load_entry,
  load_image, images,
}
use go_graphics.RenderJob.System.{Inv}
use go_graphics.RenderJob.Start.Fresh.{IsModest, check_settings-IsModest, new-Inv}
use go_graphics.RenderJob.Start.Loading.{HasDistinctStems}
use go_graphics.RenderJob.Samples.{sha}
use go_graphics.Common.Dict.{insert, lookup}
use go_graphics.Common.Texts.{is_hex}

abbrev settings : Settings
settings = record {
  renderer = true;
  build = "b";
  directory = "cache";
  queue = pos 0;
  cache_bytes = pos 0;
  cache_count = pos 3;
  max_age = pos 0;
}

abbrev settled_config : Config
settled_config = record {
  build = "b";
  queue = 8;
  cache_bytes = 2 * 2 ^ 30;
  cache_count = 3;
  max_age = 24 * hour;
}

abbrev image_id : String
image_id = "0123456789abcdef0123456789abcdef0123456789abcdef0123456789abcdef"

abbrev leftover : FileEntry
leftover = record {
  name = "pending-17";
  content = 1 ∷ [];
  symlink = false;
  info = some (true, 1);
  removes = true;
  reads = true;
}

abbrev image_file : FileEntry
image_file = record {
  name = "0123456789abcdef0123456789abcdef0123456789abcdef0123456789abcdef.png";
  content = 1 ∷ 2 ∷ 3 ∷ [];
  symlink = false;
  info = some (true, 4);
  removes = true;
  reads = true;
}

abbrev fresh_manager : Manager
fresh_manager = record (blank settled_config ((image_id, 1 ∷ 2 ∷ 3 ∷ []) ∷ [])) {
  artifacts = (image_id, record { size = 3; created = 4; digest = "long"; refs = pos 0 }) ∷ [];
  bytes = pos 3;
}

settled : check_settings settings ≡ ok settled_config
unfolding check_settings with_defaults String-discrete
settled = refl

check_settings-IsModest_example : IsModest settled_config
check_settings-IsModest_example = check_settings-IsModest settings settled_config settled

files-HasDistinctStems : HasDistinctStems (image_file ∷ leftover ∷ [])
unfolding stem
files-HasDistinctStems = ((λ id e. ((λ f. ground arith), tt)), ((λ id e. tt), tt))

started_fresh : new sha 10 (some (image_file ∷ leftover ∷ [])) settings ≡ ok fresh_manager
unfolding new check_settings with_defaults reconcile load_entry load_image stem is_hex images insert
    lookup String-discrete ◌+ℤ◌
started_fresh = refl

new-Inv_example : Inv sha (record { manager = fresh_manager; run = none; held = [] })
new-Inv_example =
    new-Inv sha 10 (image_file ∷ leftover ∷ []) settings fresh_manager files-HasDistinctStems
      started_fresh
