-- ===== src/RenderJob/Worker/Begin.antt =====
-- `work`: what the first locked section of the loop does.
use mathlib.Core.Path.{◌≡◌, refl}
use go_graphics.Common.{
  [], ℕ, String, ◌⊎◌, List, none, Option, some, true, same, false, arith, ◌∙◌, inl, subst, inr,
}
use go_graphics.RenderJob.Model.{Manager, Job, is_queued}
use go_graphics.RenderJob.Worker.{
  begin, take_index, scan, get_elem?, start_job, candidate, Run, started,
}
use go_graphics.RenderJob.Worker.Scan.{IsFit, scan-keeps, IsIdle}
use go_graphics.Common.Names.{contains}
use go_graphics.RenderJob.Worker.Choice.{IsFit-after, scan-Finds, Finds}
use go_graphics.RenderJob.Worker.Fair.{scan-Misses, scan_fair}
use go_graphics.Common.Dict.{lookup, lookup-insert_self}

-- What the scan leaves alone.
pub record Scanned (m k : Manager) : Type 0 where
  pub queue : k.queue ≡ m.queue
  pub last : k.last ≡ m.last
  pub cfg : k.cfg ≡ m.cfg
  pub next : k.next ≡ m.next

pub scan-Scanned :
    (now : ℕ) (m : Manager) (l : List String) (i : ℕ) (index : Option ℕ)
    → Scanned m (scan now m l i index).0
scan-Scanned now m l i index =
    scan-keeps (Scanned m) now
      (λ k id j o q s c. record { queue = c.queue; last = c.last; cfg = c.cfg; next = c.next }) m l
      i index (record { queue = refl; last = refl; cfg = refl; next = refl })

pub scan-IsFit :
    (now : ℕ) (m : Manager) (l : List String) (i : ℕ) (index : Option ℕ) (x : String) (y : Job)
    → IsFit now m x y
    → IsFit now (scan now m l i index).0 x y
scan-IsFit now m l i index x y =
    scan-keeps (λ k. IsFit now k x y) now (λ k id j o q s f. IsFit-after now k id x j y s f) m l i
      index

-- The two outcomes: a queued job that is not too old is taken out of the queue and runs, or no job
-- is left queued.
pub record Starts (now : ℕ) (m : Manager) : Type 0 where
  pub index : ℕ
  pub id : String
  pub job : Job
  pub place : get_elem? m.queue index ≡ some id
  pub fits : IsFit now m id job
  pub fair :
      (x : String) (y : Job)
      → contains x m.queue ≡ true
      → IsFit now m x y
      → same y.owner m.last ≡ false
      → same job.owner m.last ≡ false
  pub outcome : begin now m ≡ start_job id index job (scan now m m.queue 0 none).0

abbrev pub Rests : ℕ → Manager → Type 0
Rests now m =
    (begin now m ≡ (record (scan now m m.queue 0 none).0 { queue = [] }, none))
    × ((x : String)
        → contains x m.queue ≡ true
        → IsIdle (lookup x (scan now m m.queue 0 none).0.jobs))

take_found :
    (m : Manager) (i : ℕ) (id : String) (j : Job)
    → get_elem? m.queue i ≡ some id
    → lookup id m.jobs ≡ some j
    → take_index m (some i) ≡ start_job id i j m
unfolding take_index
take_found m i id j e f = rw (e, f, take_index)

begin_takes :
    (now : ℕ) (m : Manager)
    → begin now m ≡ take_index (scan now m m.queue 0 none).0 (scan now m m.queue 0 none).1
begin_takes now m = unfold begin in refl

take_none : (m : Manager) → take_index m none ≡ (record m { queue = [] }, none)
take_none m = unfold take_index in refl

same_place :
    (now : ℕ) (m : Manager) (l : List String) (i : ℕ) (r : Option ℕ) (f g : Finds now m l i r)
    → f.job ≡ g.job
same_place now m l i r f g =
    ground (arith, f.result, g.result, f.place, g.place, f.fits.0, g.fits.0)

found :
    {now : ℕ} {m : Manager} {l : List String} {r : Option ℕ} (f : Finds now m l 0 r) → r ≡ some f.n
found f = ground (arith, f.result)

begin-Starts :
    (now : ℕ) (m : Manager) → Finds now m m.queue 0 (scan now m m.queue 0 none).1 → Starts now m
begin-Starts now m f = record {
  index = f.n;
  id = f.id;
  job = f.job;
  place = f.place;
  fits = f.fits;
  fair = λ x y c fit new.
      let (g, o) = scan_fair now m m.queue 0 none x y c fit new in
      subst (λ j. same j.owner m.last ≡ false) (same_place now m m.queue 0 _ g f) o;
  outcome =
      begin_takes now m
      ∙ rw (found f) (
          take_found (scan now m m.queue 0 none).0 f.n f.id f.job
            (rw (scan-Scanned now m m.queue 0 none).queue f.place)
            (scan-IsFit now m m.queue 0 none f.id f.job f.fits).0);
}

begin-Rests : (now : ℕ) (m : Manager) → (scan now m m.queue 0 none).1 ≡ none → Rests now m
begin-Rests now m e =
    let o = begin_takes now m ∙ rw e (take_none (scan now m m.queue 0 none).0) in
    (o, scan-Misses now m m.queue 0 e)

pub begin_cases : (now : ℕ) (m : Manager) → Starts now m ⊎ Rests now m
begin_cases now m = elim (scan-Finds now m m.queue 0 none) [
  | inl e ↦ inr (begin-Rests now m e)
  | inr f ↦ inl (begin-Starts now m f)
]

-- `run` is for a queued job that was not too old. If its owner was served last, so were the owners of
-- all such jobs.
pub record Chosen (now : ℕ) (m : Manager) : Type 0 where
  pub run : Run
  pub job : Job
  pub picked : (begin now m).1 ≡ some run
  pub fits : IsFit now m run.id job
  pub ref : run.ref ≡ job.ref
  pub running : lookup run.id (begin now m).0.jobs ≡ some (started job)
  pub owner : (begin now m).0.last ≡ job.owner
  pub fair :
      (x : String) (y : Job)
      → contains x m.queue ≡ true
      → IsFit now m x y
      → same y.owner m.last ≡ false
      → same job.owner m.last ≡ false

pub fit-queued :
    (now : ℕ) (m : Manager) (id : String) (j : Job) → IsFit now m id j → is_queued j.state ≡ true
unfolding candidate
fit-queued now m id j (e, c) = ground arith

no_idle : (y : Job) → is_queued y.state ≡ true → is_queued y.state ≡ false → ⊥
no_idle y a b = ground arith

Starts-Chosen : (now : ℕ) (m : Manager) → Starts now m → Chosen now m
unfolding start_job
Starts-Chosen now m t =
    let k = (scan now m m.queue 0 none).0 in
    record {
      run = record { id = t.id; ref = t.job.ref; request = t.job.request; cancelled = k.closing };
      job = t.job;
      picked = rw t.outcome refl;
      fits = t.fits;
      ref = refl;
      running = rw t.outcome (lookup-insert_self t.id (started t.job) k.jobs);
      owner = rw t.outcome refl;
      fair = t.fair;
    }

-- While a job stands in the queue that is queued and not too old, the worker takes such a one and
-- marks it running, with its owner the last served. The job's owner is another than the one served
-- last, if any such job has another owner.
pub begin_fair :
    (now : ℕ) (m : Manager) (x : String) (y : Job)
    → contains x m.queue ≡ true
    → IsFit now m x y
    → Chosen now m
begin_fair now m x y c fit = elim (begin_cases now m) [
  | inl t ↦ Starts-Chosen now m t
  | inr (o, idle) ↦
      let f = scan-IsFit now m m.queue 0 none x y fit in
      absurd (no_idle y (fit-queued now (scan now m m.queue 0 none).0 x y f) (idle x c y f.0))
]
