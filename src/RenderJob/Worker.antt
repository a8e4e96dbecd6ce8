-- ===== src/RenderJob/Worker.antt =====
-- internal/renderjob/manager.go: `work`, `execute` and `Close`. The worker is one goroutine: between
-- `begin` and `finish` it holds no lock, and other operations run.
pub mod Scan
pub mod Choice
pub mod Fair
pub mod Begin
pub mod Outcome
use go_graphics.Common.{
  ℕ, zero, suc, ◌+◌, String, Bool, true, false, ◌&&◌, ◌||◌, not, Option, none, some, List, [], ◌∷◌,
  if◌then◌else◌, ◌==◌, same,
}
use go_graphics.Common.Dict.{lookup, insert}
use go_graphics.RenderJob.Model.{
  Manager, Host, Job, Request, State, running, ready, failed, expired, is_queued, is_running, older,
  minute, Result, ok, err, Error, failure,
}
use go_graphics.RenderJob.Cache.{publish, present}
use go_graphics.RenderJob.Protocol.{Publisher, Rendition, ◌>>=◌}

abbrev pub get_elem? {ℓ} : {A : Type ℓ} → List A → ℕ → Option A
get_elem? [] i = none
get_elem? (x ∷ xs) zero = some x
get_elem? (x ∷ xs) (suc i) = get_elem? xs i

-- `append(q[:i], q[i+1:]...)`
abbrev pub erase_idx {ℓ} : {A : Type ℓ} → List A → ℕ → List A
erase_idx [] i = []
erase_idx (x ∷ xs) zero = xs
erase_idx (x ∷ xs) (suc i) = x ∷ erase_idx xs i

abbrev pub with_state : State → Job → Job
with_state s j = record j { state = s }

abbrev pub set_job : String → Job → Manager → Manager
set_job id j m = record m { jobs = insert id j m.jobs }

-- What the scan makes of one entry of the queue.
pub data Candidate : Type 0 where
  skipped : Candidate
  stale fit : Job → Candidate

unfoldable pub candidate : ℕ → Option Job → Candidate
candidate now none = skipped
candidate now (some j) =
    if is_queued j.state then (if older now j.created minute then stale j else fit j) else skipped

abbrev pub first_index : Option ℕ → ℕ → Option ℕ
first_index none i = some i
first_index (some k) i = some k

-- The scan from position `i`, with `index` found so far.
unfoldable pub scan : ℕ → Manager → List String → ℕ → Option ℕ → Manager × Option ℕ
scan now m [] i index = (m, index)
scan now m (id ∷ rest) i index = elim (candidate now (lookup id m.jobs)) [
  | skipped ↦ scan now m rest (i + 1) index
  | stale j ↦ scan now (set_job id (with_state expired j) m) rest (i + 1) index
  | fit j ↦ elim (same j.owner m.last) [
    | false ↦ (m, some i)
    | true ↦ scan now m rest (i + 1) (first_index index i)
  ]
]

-- The work in hand: the job's id and address, and whether its context is cancelled.
pub record Run : Type 0 where
  pub id : String
  pub ref : ℕ
  pub request : Request
  pub cancelled : Bool

abbrev pub started : Job → Job
started j = record j { state = running; cancel = true }

unfoldable pub start_job : String → ℕ → Job → Manager → Manager × Option Run
start_job id i j m = (
  record m { queue = erase_idx m.queue i; last = j.owner; jobs = insert id (started j) m.jobs },
  some (record { id = id; ref = j.ref; request = j.request; cancelled = m.closing }),
)

unfoldable pub take_index : Manager → Option ℕ → Manager × Option Run
unfolding start_job
take_index m none = (record m { queue = [] }, none)
take_index m (some i) = elim (get_elem? m.queue i) [
  | none ↦ (m, none)
  | some id ↦ elim (lookup id m.jobs) [ none ↦ (m, none) | some j ↦ start_job id i j m ]
]

-- The first locked section of the loop: pick a job, or clear the queue.
unfoldable pub begin : ℕ → Manager → Manager × Option Run
begin now m = let r = scan now m m.queue 0 none in take_index r.0 r.1

-- The decoder of image/png: the size in the header, and whether the whole image decodes.
pub record Png : Type 0 where
  pub config : List ℕ → Option (ℕ × ℕ)
  pub decodes : List ℕ → Bool

-- `err != nil || c.Width != tier.Width || c.Height != tier.Height`
abbrev pub has_size : Option (ℕ × ℕ) → Rendition → Bool
has_size none t = false
has_size (some (w, h)) t = (w == t.width) && (h == t.height)

-- `execute`, from what the renderer wrote or failed with.
unfoldable pub execute : Publisher → Png → Request → Result (List ℕ) → Result (List ℕ)
execute p png q rendered = do
  b ← rendered
  r ← p.validate q.recipe
  t ← p.tier r.id q.tier
  if has_size (png.config b) t
      then (if png.decodes b then ok b else err (failure "png"))
      else err (failure "invalid renderer dimensions")

-- `if err == nil && ctx.Err() != context.DeadlineExceeded && m.ctx.Err() == nil`
unfoldable pub deliver :
    Host → ℕ → String → Result (List ℕ) → Bool → Manager → Manager × Option Error
deliver host now id (err e) late m = (m, some e)
deliver host now id (ok b) late m =
    if not late && not m.closing then publish host now id b m else (m, none)

abbrev pub settle : String → Manager × Option Error → Manager
settle id (m, e) = elim (lookup id m.jobs) [
  | none ↦ m
  | some j ↦ set_job id (with_state (if present e || m.closing then failed else ready) j) m
]

-- The second locked section: `result` is what `execute` or the context gave, `late` whether the
-- deadline has passed.
unfoldable pub finish : Host → ℕ → Run → Result (List ℕ) → Bool → Manager → Manager
finish host now run result late m = elim (lookup run.id m.jobs) [
  | none ↦ m
  | some j ↦
      if (j.ref == run.ref) && is_running j.state
      then settle run.id (deliver host now run.id result late m)
      else m
]

-- `m.cancel()`, with which `Close` begins.
unfoldable pub shut_down : Manager → Manager
shut_down m = record m { closing = true }
