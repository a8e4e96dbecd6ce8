-- ===== src/RenderJob/Start.antt =====
-- internal/renderjob/manager.go: `New` and `reconcile`. A directory entry carries what the operating
-- system answers for it; `os.ReadDir` gives the entries in the order of their names.
pub mod Loading
pub mod Opening
pub mod Fresh
use Prim.Native.String.{len, String as Text, [] as no_text, ◌∷◌ as char_then}
use Prim.Native.Char.{Char, code}
use text.Mathlib.Text.{starts_with, get?, ◌==◌ as is_text}
use go_graphics.Common.{
  ℕ, ◌+◌, ◌*◌, ◌-◌, String, Bool, true, false, Option, none, some, List, [], ◌∷◌, if◌then◌else◌,
  ◌||◌, ◌&&◌, not, leb, ltb, length, ◌==◌, ◌^◌, same,
}
use go_graphics.RenderJob.Model.{
  Manager, Host, Config, Result, ok, err, Error, failure, minute, Artifact, max_image, is_zero,
  older,
}
use go_graphics.Common.Int.{ℤ, ltb_ℤ, pos, pos_part, ◌+ℤ◌}
use go_graphics.Common.Dict.{delete, Dict, insert}
use go_graphics.RenderJob.Protocol.{◌>>=◌}
use go_graphics.Common.Texts.{is_hex}

-- The caller's `Config`.
pub record Settings : Type 0 where
  pub renderer : Bool  -- `c.Renderer != nil`
  pub build : String
  pub directory : String
  pub queue : ℤ
  pub cache_bytes : ℤ
  pub cache_count : ℤ
  pub max_age : ℤ

abbrev pub hour : ℕ
hour = 60 * minute

abbrev pub or_default : ℤ → ℕ → ℤ
or_default z d = if is_zero z then pos d else z

unfoldable pub with_defaults : Settings → Settings
with_defaults c = record c {
  queue = or_default c.queue 8;
  cache_bytes = or_default c.cache_bytes (2 * 2 ^ 30);
  cache_count = or_default c.cache_count 5000;
  max_age = or_default c.max_age (24 * hour);
}

-- The third test of `New`.
abbrev pub is_invalid : Settings → Bool
is_invalid c =
    ltb_ℤ c.queue (pos 1)
    || ltb_ℤ (pos 8) c.queue
    || ltb_ℤ c.cache_count (pos 1)
    || ltb_ℤ (pos 5000) c.cache_count
    || ltb_ℤ c.cache_bytes (pos max_image)
    || ltb_ℤ c.max_age (pos 0)

unfoldable pub check_settings : Settings → Result Config
check_settings c =
    let d = with_defaults c in
    if not c.renderer || same c.build "" || same c.directory ""
    then err (failure "missing renderer configuration")
    else if is_invalid d
    then err (failure "invalid capacity")
    else ok (record {
      build = c.build;
      queue = pos_part d.queue;
      cache_bytes = pos_part d.cache_bytes;
      cache_count = pos_part d.cache_count;
      max_age = pos_part d.max_age;
    })

pub record FileEntry : Type 0 where
  pub name : String
  pub content : List ℕ  -- the bytes of the file
  pub symlink : Bool
  pub info : Option (Bool × ℕ)  -- whether it is regular, and when it was modified
  pub removes : Bool  -- `os.Remove` succeeds
  pub reads : Bool  -- it can be opened, read to its end and closed

-- The name in front of the suffix `.png`, where it has one.
unfoldable pub stem : String → Option String
stem name =
    if leb 4 (len name)
    then elim (get? name (len name - 4) (len name)) [
      | none ↦ none
      | some suffix ↦ if is_text suffix ".png" then get? name 0 (len name - 4) else none
    ]
    else none

abbrev pub is_refused : ℕ → Manager → ℕ → ℕ → Bool
is_refused now m size modified =
    ltb max_image size
    || older now modified m.cfg.max_age
    || leb m.cfg.cache_count (length m.artifacts)
    || ltb_ℤ (pos m.cfg.cache_bytes) (m.bytes +ℤ pos size)

abbrev pub loaded : (List ℕ → String) → List ℕ → ℕ → Artifact
loaded sha b modified = record { size = length b; created = modified; digest = sha b; refs = pos 0 }

abbrev pub enter : String → Artifact → Manager → Manager
enter id a m = record m { artifacts = insert id a m.artifacts; bytes = m.bytes +ℤ pos a.size }

abbrev pub lose : String → Manager → Manager
lose id m = record m { disk = delete id m.disk }

-- An image's file, behind the tests of its name.
unfoldable pub load_image : (List ℕ → String) → ℕ → String → FileEntry → Manager → Result Manager
load_image sha now id e m = elim e.info [
  | none ↦ err (failure "info")
  | some (regular, modified) ↦
      if not regular
      then ok m
      else if is_refused now m (length e.content) modified
      then (if e.removes then ok (lose id m) else err (failure "remove"))
      else if e.reads
      then ok (enter id (loaded sha e.content modified) m)
      else err (failure "read")
]

-- A removed file; the table has it if its name ends in `.png`.
abbrev pub lose_stem : Option String → Manager → Manager
lose_stem none m = m
lose_stem (some id) m = lose id m

-- The body of the loop. `len` counts bytes.
unfoldable pub load_entry : (List ℕ → String) → ℕ → FileEntry → Manager → Result Manager
load_entry sha now e m =
    if starts_with e.name "pending-"
    then (if e.removes then ok (lose_stem (stem e.name) m) else err (failure "remove"))
    else elim (stem e.name) [
      | none ↦ ok m
      | some id ↦
          if not (len id == 64) || (e.symlink || not (is_hex id))
          then ok m
          else load_image sha now id e m
    ]

unfoldable pub reconcile : (List ℕ → String) → ℕ → List FileEntry → Manager → Result Manager
reconcile sha now [] m = ok m
reconcile sha now (e ∷ rest) m = load_entry sha now e m >>= reconcile sha now rest

-- The files that a name `<id>.png` reaches.
unfoldable pub images : List FileEntry → Dict (List ℕ)
images [] = []
images (e ∷ rest) = elim (stem e.name) [
  | none ↦ images rest
  | some id ↦ insert id e.content (images rest)
]

abbrev pub blank : Config → Dict (List ℕ) → Manager
blank c disk = record {
  cfg = c;
  jobs = [];
  queue = [];
  artifacts = [];
  bytes = pos 0;
  wake = false;
  closing = false;
  enabled = true;
  opened = pos 0;
  last = "";
  disk = disk;
  next = 0;
}

-- `entries` is what `os.ReadDir` gives, if the directory can be made and read.
unfoldable pub new : (List ℕ → String) → ℕ → Option (List FileEntry) → Settings → Result Manager
new sha now none c = check_settings c >>= λ _. err (failure "directory")
new sha now (some entries) c =
    check_settings c >>= λ g. reconcile sha now entries (blank g (images entries))
