-- ===== src/RenderJob/System/Invariant.antt =====
-- The invariant of the system along its steps.
use go_graphics.Common.{
  refl, ◌∷◌, String, List, Option, ℕ, ◌≡◌, Bool, sym, some, none, false, subst, ◌<◌, Bool-cases,
  same, inl, arith, same_eq, inr, true,
}
use go_graphics.RenderJob.Leases.{reserve, close, release, reserved, open_image, unreserved}
use go_graphics.RenderJob.Model.{Manager, Artifact, Host, Lease, Result, ok, artifact_at}
use go_graphics.RenderJob.Visitors.{enable}
use go_graphics.RenderJob.Sound.{IsBounded, IsSound}
use go_graphics.RenderJob.Worker.{Run, shut_down}
use go_graphics.Common.Dict.{lookup, insert, lookup-insert}
use go_graphics.RenderJob.Sound.Running.{IsServed, cancel-IsServed, prune-IsServed}
use go_graphics.RenderJob.Sound.Enrollment.{none_excepted, admit_keeps}
use go_graphics.RenderJob.Sound.Placement.{SameCache}
use go_graphics.RenderJob.System.{
  System, Reach, Holds, Step, Inv, finish, IsKept, admits, stay, step, cancels, enables, opens,
  closes, prunes, begins, finishes, shuts_down,
}
use go_graphics.RenderJob.System.Leased.{same-IsKept, entry_of, open_image-IsKept, close-IsKept}
use go_graphics.RenderJob.Leases.Counting.{open_image_succeeds, count, remove_one}
use go_graphics.RenderJob.System.Preserved.{
  finish-IsKept, admit-IsKept, cancel-SameCache, begin-SameCache,
}
use go_graphics.RenderJob.Sound.Working.{finish-IsSound, finish-IsBounded}
use go_graphics.RenderJob.Sound.Finishing.{finish-IsServed}
use go_graphics.RenderJob.Sound.Serving.{admit-IsServed, begin-IsServed}
use go_graphics.RenderJob.Sound.Leaving.{cancel-IsSound, cancel-IsBounded}
use go_graphics.RenderJob.System.Kept.{prune-IsKept}
use go_graphics.RenderJob.Sound.Pruning.{prune-IsSound, prune-IsBounded}
use go_graphics.RenderJob.Sound.Queueing.{begin-IsSound, begin-IsBounded}

-- The jobs and the queue are those of `m`, and no image is new.
record SameJobs (m k : Manager) : Type 0 where
  cfg : k.cfg ≡ m.cfg
  jobs : k.jobs ≡ m.jobs
  queue : k.queue ≡ m.queue
  next : k.next ≡ m.next
  old : (id : String) → lookup id m.artifacts ≡ none → lookup id k.artifacts ≡ none

IsSound-of_same : (m k : Manager) → SameJobs m k → IsSound none_excepted m → IsSound none_excepted k
IsSound-of_same m k e s = record {
  distinct = rw e.jobs s.distinct;
  uncached = λ i j f l x. e.old i (s.uncached i j (rw (sym e.jobs) f) l x);
  few = λ i j f. s.few i j (rw (sym e.jobs) f);
  waiting = λ i j f q. rw e.queue (s.waiting i j (rw (sym e.jobs) f) q);
  allocated = λ i j f. rw e.next (s.allocated i j (rw (sym e.jobs) f));
}

IsBounded-of_same : (m k : Manager) → SameJobs m k → IsBounded m → IsBounded k
IsBounded-of_same m k e b = record {
  queued = rw (e.jobs, e.cfg) b.queued;
  owned = λ o. rw e.jobs (b.owned o);
  jobs = rw e.jobs b.jobs;
}

IsServed-of_same :
    (run : Option Run) (m k : Manager) → SameJobs m k → IsServed run m → IsServed run k
IsServed-of_same run m k e s = record {
  distinct = rw e.jobs s.distinct;
  named = rw e.jobs s.named;
  runs = λ i j f g. s.runs i j (rw (sym e.jobs) f) g;
}

rewrite_entry_old :
    (id i : String) (a x : Artifact) (m : Manager)
    → lookup id m.artifacts ≡ some a
    → lookup i m.artifacts ≡ none
    → lookup i (insert id x m.artifacts) ≡ none
rewrite_entry_old id i a x m e n = elim (Bool-cases (same id i)) [
  | inl here ↦
      absurd (ground (arith, n, subst (λ k. lookup k m.artifacts ≡ some a) (same_eq id i here) e))
  | inr other ↦ ground (arith, lookup-insert id i x m.artifacts, n)
]

open_image-SameJobs :
    (host : Host) (now : ℕ) (id : String) (m : Manager) (l : Lease) (d : String)
    → (open_image host now id m).1 ≡ ok (l, d)
    → SameJobs m (open_image host now id m).0
unfolding reserve
open_image-SameJobs host now id m l d e =
    let (a, o, r) = open_image_succeeds host now id m l d e in
    rw r (record {
      cfg = refl;
      jobs = refl;
      queue = refl;
      next = refl;
      old = λ i n. rewrite_entry_old id i a (reserved a) m o.entry n;
    })

close-SameJobs :
    (l : Lease) (m : Manager) (held : List String)
    → Holds m held
    → l.released ≡ false
    → 0 < count l.id held
    → SameJobs m (close l m).0
unfolding close release
close-SameJobs l m held h open_now some_held =
    let a = artifact_at l.id m in
    let e = entry_of l.id m ((h.counted l.id).1 some_held) in
    rw (open_now, close)
      (record {
        cfg = refl;
        jobs = refl;
        queue = refl;
        next = refl;
        old = λ i n. rewrite_entry_old l.id i a (unreserved a) m e n;
      })

keep_jobs :
    (sha : List ℕ → String) (s : System) (k : Manager) (held : List String)
    → SameJobs s.manager k
    → Inv sha s
    → IsKept sha held k
    → Inv sha (record s { manager = k; held = held })
keep_jobs sha s k held e i c = record {
  kept = c;
  sound = IsSound-of_same s.manager k e i.sound;
  bounded = IsBounded-of_same s.manager k e i.bounded;
  served = IsServed-of_same s.run s.manager k e i.served;
}

plain-SameJobs :
    (m : Manager) (on off : Bool) → SameJobs m (record m { enabled = on; closing = off })
plain-SameJobs m on off = record {
  cfg = refl;
  jobs = refl;
  queue = refl;
  next = refl;
  old = λ i n. n;
}

plain-SameCache :
    (m : Manager) (on off : Bool) → SameCache m (record m { enabled = on; closing = off })
plain-SameCache m on off = record {
  cfg = refl;
  artifacts = refl;
  bytes = refl;
  disk = refl;
  opened = refl;
}

set_plain :
    (sha : List ℕ → String) (s : System) (on off : Bool)
    → Inv sha s
    → Inv sha (record s { manager = record s.manager { enabled = on; closing = off } })
set_plain sha s on off i =
    let k = record s.manager { enabled = on; closing = off } in
    keep_jobs sha s k s.held (plain-SameJobs s.manager on off) i
      (same-IsKept sha s.held s.manager k (plain-SameCache s.manager on off) i.kept)

finish-Inv :
    (sha : List ℕ → String) (s : System) (host : Host) (now : ℕ) (run : Run) (r : Result (List ℕ))
    (late : Bool)
    → host.sha256_hex ≡ sha
    → s.run ≡ some run
    → Inv sha s
    → Inv sha (record s { manager = finish host now run r late s.manager; run = none })
finish-Inv sha s host now run r late h e i =
    let v = subst (λ o. IsServed o s.manager) e i.served in
    record {
      kept =
          subst (λ f. IsKept f s.held (finish host now run r late s.manager)) h
            (finish-IsKept s.held host now run r late s.manager i.sound v
              (subst (λ f. IsKept f s.held s.manager) (sym h) i.kept));
      sound = finish-IsSound host now run r late s.manager i.sound;
      bounded = finish-IsBounded host now run r late s.manager i.bounded;
      served = finish-IsServed host now run r late s.manager v;
    }

-- Every locked section keeps the invariant.
pub Step-Inv : (sha : List ℕ → String) (s t : System) → Step sha s t → Inv sha s → Inv sha t
unfolding enable shut_down
Step-Inv sha _ _ (admits s p host now owner qs keys) i =
    let (sound, bounded) = admit_keeps p host now s.manager owner qs i.sound i.bounded in
    record {
      kept = admit-IsKept sha s.held p host now s.manager owner qs i.kept;
      sound = sound;
      bounded = bounded;
      served = admit-IsServed s.run p host now s.manager owner qs keys i.served;
    }
Step-Inv sha _ _ (cancels s owner id) i = record {
  kept = same-IsKept sha s.held s.manager _ (cancel-SameCache owner id s.manager) i.kept;
  sound = cancel-IsSound owner id s.manager i.sound;
  bounded = cancel-IsBounded owner id s.manager i.bounded;
  served = cancel-IsServed s.run owner id s.manager i.served;
}
Step-Inv sha _ _ (enables s on) i = set_plain sha s on s.manager.closing i
Step-Inv sha _ _ (opens s host now id l d e) i =
    keep_jobs sha s (open_image host now id s.manager).0 (id ∷ s.held)
      (open_image-SameJobs host now id s.manager l d e) i
      (open_image-IsKept host now id s.manager s.held l d sha i.kept e)
Step-Inv sha _ _ (closes s l open_now some_held) i =
    keep_jobs sha s (close l s.manager).0 (remove_one l.id s.held)
      (close-SameJobs l s.manager s.held i.kept.holds open_now some_held) i
      (close-IsKept l s.manager s.held sha i.kept open_now some_held)
Step-Inv sha _ _ (prunes s host now) i = record {
  kept = prune-IsKept sha s.held host now s.manager i.kept;
  sound = prune-IsSound none_excepted host now s.manager i.sound;
  bounded = prune-IsBounded host now s.manager i.bounded;
  served = prune-IsServed s.run host now s.manager i.served;
}
Step-Inv sha _ _ (begins s now e) i = record {
  kept = same-IsKept sha s.held s.manager _ (begin-SameCache now s.manager) i.kept;
  sound = begin-IsSound now s.manager i.sound;
  bounded = begin-IsBounded now s.manager i.bounded;
  served = begin-IsServed now s.manager (subst (λ o. IsServed o s.manager) e i.served);
}
Step-Inv sha _ _ (finishes s host now run r late h e) i = finish-Inv sha s host now run r late h e i
Step-Inv sha _ _ (shuts_down s) i = set_plain sha s s.manager.enabled true i

-- From a state with the invariant, every sequence of admissions, cancellations, switches,
-- openings, closings, prunings, beginnings and ends of work, in any order and with any answers of
-- the system, in which no recipe's key is the empty text, leads to a state with it: the cache is within both its limits, its byte count is the
-- sum of the sizes and every entry describes its file, the counts of references are the numbers of
-- open leases, the queued jobs, the live jobs of each owner and all jobs are within their limits,
-- every queued job stands in the queue and waits for an image that is not there, and no job runs
-- but the worker's.
pub Reach-Inv : (sha : List ℕ → String) (s t : System) → Reach sha s t → Inv sha s → Inv sha t
Reach-Inv sha _ _ (stay s) i = i
Reach-Inv sha _ _ (step s u t r e) i = Step-Inv sha u t e (Reach-Inv sha s u r i)
