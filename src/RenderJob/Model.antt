-- ===== src/RenderJob/Model.antt =====
-- internal/renderjob/manager.go and protocol.go: the data. A time is a number of nanoseconds. A
-- pointer `*job` is the number `ref` under which the job was allocated.
use go_graphics.Common.{
  ℕ, ◌+◌, ◌*◌, ◌^◌, String, Bool, true, false, Option, List, ltb, if◌then◌else◌,
}
use go_graphics.Common.Dict.{Dict, lookup}
use go_graphics.Common.Int.{ℤ, pos, negsuc}

-- `err_expired` and `err_conflict` are the errors of internal/studio, `err_unavailable` is that of
-- internal/persistence, and `sql_error` has the state of an SQL statement that failed.
pub data Error : Type 0 where
  busy not_exist canceled deadline_exceeded : Error
  err_expired err_conflict err_unavailable : Error
  sql_error : String → Error
  failure : String → Error

pub data Result {ℓ} (A : Type ℓ) : Type ℓ where
  ok : A → Result A
  err : Error → Result A

pub data State : Type 0 where
  queued running ready failed cancelled expired : State

pub record Status : Type 0 where
  pub id : String
  pub state : State
  pub message : String

pub record Request : Type 0 where
  pub version : ℤ
  pub build : String
  pub recipe : String
  pub tier : String

pub record Job : Type 0 where
  pub ref : ℕ
  pub request : Request
  pub state : State
  pub subscribers : List String
  pub owner : String
  pub created : ℕ
  pub cancel : Bool  -- `j.cancel != nil`

pub record Artifact : Type 0 where
  pub size : ℕ
  pub created : ℕ
  pub digest : String
  pub refs : ℤ

-- What `New` makes of the caller's `Config`.
pub record Config : Type 0 where
  pub build : String
  pub queue : ℕ
  pub cache_bytes : ℕ
  pub cache_count : ℕ
  pub max_age : ℕ

-- `disk` is the private directory: the bytes of `<id>.png` under `id`. `next` is the next address.
pub record Manager : Type 0 where
  pub cfg : Config
  pub jobs : Dict Job
  pub queue : List String
  pub artifacts : Dict Artifact
  pub bytes : ℤ
  pub wake : Bool
  pub closing : Bool  -- `m.ctx.Err() != nil`
  pub enabled : Bool
  pub opened : ℤ  -- `m.open`
  pub last : String
  pub disk : Dict (List ℕ)
  pub next : ℕ

-- What the operating system answers while an operation runs.
pub record Host : Type 0 where
  pub unlink : String → Bool  -- the file can be removed
  pub readable : String → Bool  -- the file can be opened
  pub statfs : Option (ℕ × ℕ)  -- free blocks and their size
  pub saved : Bool  -- the temporary file is created, written, synced, closed and renamed
  pub sha256_hex : List ℕ → String

abbrev pub max_image : ℕ
max_image = 16 * 2 ^ 20

abbrev pub mib64 : ℕ
mib64 = 64 * 2 ^ 20

abbrev pub second : ℕ
second = 10 ^ 9

abbrev pub minute : ℕ
minute = 60 * second

abbrev pub is_queued : State → Bool
is_queued queued = true
is_queued _ = false

abbrev pub is_running : State → Bool
is_running running = true
is_running _ = false

abbrev pub is_ready : State → Bool
is_ready ready = true
is_ready _ = false

-- `state == "running" || state == "queued"`
abbrev pub is_live : State → Bool
is_live queued = true
is_live running = true
is_live _ = false

-- `time.Since(t) > d` at the time `now`
abbrev pub older : ℕ → ℕ → ℕ → Bool
older now t d = ltb (t + d) now

-- The zero value of `m.artifacts[id]`.
abbrev pub artifact_or_zero : Option Artifact → Artifact
artifact_or_zero Option.none = record { size = 0; created = 0; digest = ""; refs = pos 0 }
artifact_or_zero (Option.some a) = a

abbrev pub is_positive : ℤ → Bool
is_positive (pos n) = ltb 0 n
is_positive (negsuc n) = false

abbrev pub is_zero : ℤ → Bool
is_zero (pos n) = if ltb 0 n then false else true
is_zero (negsuc n) = false

abbrev pub artifact_at : String → Manager → Artifact
artifact_at id m = artifact_or_zero (lookup id m.artifacts)

-- An open file and its reservation. `content` is what the handle reads, also after an eviction.
pub record Lease : Type 0 where
  pub id : String
  pub content : List ℕ
  pub released : Bool  -- `l.once` has run
