-- ===== src/RenderJob/System/Preserved.antt =====
-- The cache and the leases under admission and under the worker.
use go_graphics.Common.{
  refl, String, ℕ, List, Option, Option-cases, none, ◌≡◌, inl, Bool, inr, ◌≢◌, arith, if◌then◌else◌,
  some, ◌||◌,
}
use go_graphics.RenderJob.Worker.{deliver, start_job, scan, begin, Run, settle, with_state, finish}
use go_graphics.RenderJob.Visitors.{cancel}
use go_graphics.RenderJob.Admission.{tidy_queue, admit, place}
use go_graphics.RenderJob.Model.{Manager, Host, Error, Result, Request, Job, err, ok, failed, ready}
use go_graphics.Common.Dict.{Dict, lookup, insert}
use go_graphics.RenderJob.Protocol.{Publisher}
use go_graphics.RenderJob.Leases.Counting.{Holds, count}
use go_graphics.RenderJob.Sound.Enrollment.{none_excepted, admit_cases}
use go_graphics.RenderJob.Sound.Placement.{SameCache, place-SameCache}
use go_graphics.RenderJob.Worker.Scan.{scan-keeps}
use go_graphics.RenderJob.System.Kept.{IsKept, prune-IsKept, publish-IsKept}
use go_graphics.RenderJob.Sound.Leaving.{cancel_misses, cancel_leaves, left_by}
use go_graphics.RenderJob.Sound.{IsSound}
use go_graphics.RenderJob.Worker.Begin.{begin_cases}
use go_graphics.RenderJob.Cache.{prune, present}
use go_graphics.RenderJob.Sound.Running.{IsServed, there_named}
use go_graphics.RenderJob.Worker.Outcome.{deliver_cases}
use go_graphics.RenderJob.Sound.Working.{finish_cases}
use go_graphics.RenderJob.System.Leased.{same-IsKept}

set_jobs-SameCache : (m : Manager) (jobs : Dict Job) → SameCache m (record m { jobs = jobs })
set_jobs-SameCache m jobs = record {
  cfg = refl;
  artifacts = refl;
  bytes = refl;
  disk = refl;
  opened = refl;
}

pub cancel-SameCache : (owner id : String) (m : Manager) → SameCache m (cancel owner id m).0
unfolding cancel
cancel-SameCache owner id m = elim (Option-cases (lookup id m.jobs)) [
  | inl gone ↦ rw (cancel_misses owner id m gone) (set_jobs-SameCache m m.jobs)
  | inr (j, there) ↦
      rw (cancel_leaves owner id m j there)
        (set_jobs-SameCache m (insert id (left_by owner j) m.jobs))
]

scan-SameCache :
    (now : ℕ) (m : Manager) (l : List String) (i : ℕ) (index : Option ℕ)
    → SameCache m (scan now m l i index).0
scan-SameCache now m l i index =
    scan-keeps (SameCache m) now
      (λ k id j o q c s. record {
        cfg = s.cfg;
        artifacts = s.artifacts;
        bytes = s.bytes;
        disk = s.disk;
        opened = s.opened;
      })
      m l i index (set_jobs-SameCache m m.jobs)

pub begin-SameCache : (now : ℕ) (m : Manager) → SameCache m (begin now m).0
unfolding start_job
begin-SameCache now m =
    let c = scan-SameCache now m m.queue 0 none in
    elim (begin_cases now m) [
      | inl t ↦ rw t.outcome (record {
        cfg = c.cfg;
        artifacts = c.artifacts;
        bytes = c.bytes;
        disk = c.disk;
        opened = c.opened;
      })
      | inr (o, idle) ↦ rw o (record {
        cfg = c.cfg;
        artifacts = c.artifacts;
        bytes = c.bytes;
        disk = c.disk;
        opened = c.opened;
      })
    ]

settle-SameCache : (id : String) (m : Manager) (e : Option Error) → SameCache m (settle id (m, e))
settle-SameCache id m e = elim (Option-cases (lookup id m.jobs)) [
  | inl gone ↦ rw (gone, settle) (set_jobs-SameCache m m.jobs)
  | inr (j, there) ↦
      rw (there, settle)
        (set_jobs-SameCache m
          (insert id (with_state (if present e || m.closing then failed else ready) j) m.jobs))
]

-- No lease holds an image that is not there.
nobody-Holds :
    (id : String) (m : Manager) (held : List String)
    → Holds m held
    → lookup id m.artifacts ≡ none
    → count id held ≡ 0
nobody-Holds id m held h e = ground (arith, h.counted id, e)

pub admit-IsKept :
    (sha : List ℕ → String) (held : List String) (p : Publisher) (host : Host) (now : ℕ)
    (m : Manager) (owner : String) (qs : List Request)
    → IsKept sha held m
    → IsKept sha held (admit p host now m owner qs).0
unfolding tidy_queue
admit-IsKept sha held p host now m owner qs k =
    admit_cases (IsKept sha held) p host now m owner qs k λ batch e.
      let m1 = prune host now m in
      let k1 = prune-IsKept sha held host now m k in
      let c = place-SameCache (tidy_queue m1) now owner batch in
      same-IsKept sha held m1 (place (tidy_queue m1) now owner batch).0
        (record {
          cfg = c.cfg;
          artifacts = c.artifacts;
          bytes = c.bytes;
          disk = c.disk;
          opened = c.opened;
        })
        k1

deliver-IsKept :
    (held : List String) (host : Host) (now : ℕ) (id : String) (r : Result (List ℕ)) (late : Bool)
    (m : Manager)
    → id ≢ ""
    → count id held ≡ 0
    → IsKept host.sha256_hex held m
    → IsKept host.sha256_hex held (deliver host now id r late m).0
unfolding deliver
deliver-IsKept held host now id (err e) late m n z k = k
deliver-IsKept held host now id (ok b) late m n z k =
    deliver_cases (λ p. IsKept host.sha256_hex held p.0) host now id b late m (λ _. k) (λ _. k)
      (publish-IsKept held host now id b m n z k)

pub finish-IsKept :
    (held : List String) (host : Host) (now : ℕ) (run : Run) (r : Result (List ℕ)) (late : Bool)
    (m : Manager)
    → IsSound none_excepted m
    → IsServed (some run) m
    → IsKept host.sha256_hex held m
    → IsKept host.sha256_hex held (finish host now run r late m)
finish-IsKept held host now run r late m s v k =
    finish_cases host now run r late m (IsKept host.sha256_hex held) k λ j e f g.
      let d = deliver host now run.id r late m in
      same-IsKept host.sha256_hex held d.0 (settle run.id d) (settle-SameCache run.id d.0 d.1) (
        deliver-IsKept held host now run.id r late m
          (λ q. absurd (ground (arith, q, there_named (some run) run.id j m v e)))
          (nobody-Holds run.id m held k.holds (s.uncached run.id j e (ground (arith, g)) refl)) k)
