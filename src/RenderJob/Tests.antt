-- ===== src/RenderJob/Tests.antt =====
-- The properties of internal/renderjob at concrete inputs.
mod Fresh
mod Images
mod Output
use go_graphics.Common.{
  String-discrete, refl, [], ◌∷◌, ℕ, String, true, false, List, some, none, length, ◌≢◌, same, ◌≡◌,
  ◌<◌, arith, Bool-cases, ◌≤◌, inl, ◌⊎◌, inr, subst, same_refl, ◌^◌,
}
use go_graphics.RenderJob.Samples.{
  host, empty_manager, busy_run, sha, publisher, running_job, busy_manager, busy_system, held_image,
  request, busy-IsStored, busy-Holds, waiting_job, busy-IsConsistent, busy-Inv, busy-IsSound,
  busy-IsBounded, by_key,
}
use go_graphics.RenderJob.Model.{Job, Lease, is_queued, ok, Manager, expired}
use go_graphics.RenderJob.Admission.Atomic.{PlaceOutcome, place_lem}
use go_graphics.RenderJob.System.{System, Reach, Inv, step, stay, admits, finishes, begins, cancels}
use go_graphics.RenderJob.Worker.Begin.{Chosen, begin_fair}
use go_graphics.RenderJob.Worker.Outcome.{IsForeign, IsOwn, Ends, finish_lem}
use go_graphics.RenderJob.Cache.Consistent.{IsConsistent, publish-IsConsistent}
use go_graphics.RenderJob.Visitors.{status, cancel, counts}
use go_graphics.Common.Names.{discard, contains}
use go_graphics.RenderJob.Worker.{begin, finish, take_index, candidate, scan, with_state}
use go_graphics.RenderJob.Cache.{
  publish, prune, expire_artifacts, forget_jobs, evict_oldest, shrink, make_room, oldest_from,
  remove, drop_artifact, write_image, store,
}
use go_graphics.RenderJob.Leases.Counting.{count, Holds, remove_one}
use go_graphics.RenderJob.Sound.Serving.{HasKeys}
use go_graphics.RenderJob.Leases.{open_image, close}
use go_graphics.Common.Dict.{lookup, retain, insert, delete}
use go_graphics.RenderJob.Cache.Eviction.{EvictionOutcome, evict_oldest_lem, AllHeld}
use go_graphics.RenderJob.Sound.{IsSound, IsBounded}
use go_graphics.RenderJob.Cache.Files.{IsStored, publish-IsStored, publish_spares}
use go_graphics.RenderJob.Sound.Enrollment.{none_excepted, admit_keeps}
use go_graphics.RenderJob.Leases.Lifecycle.{publish-Holds, open_image-Holds, close-Holds}
use go_graphics.RenderJob.Worker.Scan.{IsFit}
use go_graphics.RenderJob.System.Invariant.{Reach-Inv}
use go_graphics.Common.Int.{◌≤ℤ◌, pos, ◌+ℤ◌, ◌-ℤ◌}
use go_graphics.RenderJob.Visitors.Isolation.{cancel_isolated, cancel_stops}
use go_graphics.RenderJob.Cache.Bounds.{IsWithin, prune_within}
use go_graphics.RenderJob.Admission.{admit, place}
use go_graphics.RenderJob.Sound.Queueing.{begin_idle}
use go_graphics.RenderJob.Cache.Publication.{publish-IsWithin}
use go_graphics.RenderJob.System.Single.{counts_lem}

-- A client joins, the worker finishes its job and begins the next, and its client leaves.
abbrev joined_system : System
joined_system = record busy_system {
  manager = (admit publisher host 10 busy_manager "cy" (request "first" ∷ [])).0;
}

abbrev finished_system : System
finished_system = record joined_system {
  manager = finish host 11 busy_run (ok (1 ∷ 2 ∷ 3 ∷ [])) false joined_system.manager;
  run = none;
}

abbrev begun_system : System
begun_system = record finished_system {
  manager = (begin 12 finished_system.manager).0;
  run = (begin 12 finished_system.manager).1;
}

abbrev left_system : System
left_system = record begun_system { manager = (cancel "ann" "k1" begun_system.manager).0 }

publisher-HasKeys : HasKeys publisher
unfolding String-discrete
publisher-HasKeys r t build = elim (Bool-cases (same r.canonical "first")) [
  | inl first ↦ rw first refl
  | inr other ↦ rw other refl
]

abbrev route : Reach sha busy_system left_system
route =
    step _ begun_system _
      (step _ finished_system _
        (step _ joined_system _
          (step _ busy_system _ (stay busy_system)
            (admits busy_system publisher host 10 "cy" (request "first" ∷ []) publisher-HasKeys))
          (finishes joined_system host 11 busy_run (ok (1 ∷ 2 ∷ 3 ∷ [])) false refl refl))
        (begins finished_system 12 refl))
      (cancels begun_system "ann" "k1")

Reach-Inv_example : Inv sha left_system
Reach-Inv_example = Reach-Inv sha busy_system left_system route busy-Inv

place_lem_example :
    PlaceOutcome busy_manager "cy"
      (("k1", request "first") ∷ [])
      (place busy_manager 10 "cy" (("k1", request "first") ∷ []))
place_lem_example = place_lem busy_manager 10 "cy" (("k1", request "first") ∷ [])

admit_keeps_example :
    IsSound none_excepted (admit publisher host 10 busy_manager "cy" (request "first" ∷ [])).0
    × IsBounded (admit publisher host 10 busy_manager "cy" (request "first" ∷ [])).0
admit_keeps_example =
    admit_keeps publisher host 10 busy_manager "cy" (request "first" ∷ []) busy-IsSound
      busy-IsBounded

waiting-IsFit : IsFit 10 busy_manager "k1" waiting_job
unfolding lookup candidate String-discrete
waiting-IsFit = (refl, refl)

queue-contains : contains "k1" busy_manager.queue ≡ true
unfolding contains String-discrete
queue-contains = refl

begin_fair_example : Chosen 10 busy_manager
begin_fair_example = begin_fair 10 busy_manager "k1" waiting_job queue-contains waiting-IsFit

abbrev late_manager : Manager
late_manager = record empty_manager { jobs = ("k1", waiting_job) ∷ []; queue = "k1" ∷ []; next = 1 }

abbrev IsLateJob : String → Type 0
IsLateJob id =
    (j : Job)
    → lookup id late_manager.jobs ≡ some j
    → (length j.subscribers ≤ 24) × (contains id late_manager.queue ≡ true) × (j.ref < 1)

late-IsLateJob : (id : String) → IsLateJob id
unfolding lookup contains String-discrete
late-IsLateJob id =
    by_key IsLateJob "k1" id (λ j e. (ground arith, refl, ground arith))
      λ o j e. absurd (ground (arith, o))

late-IsSound : IsSound none_excepted late_manager
unfolding lookup
late-IsSound = record {
  distinct = (refl, tt);
  uncached = λ i j e l x. refl;
  few = λ i j e. (late-IsLateJob i j e).0;
  waiting = λ i j e q. (late-IsLateJob i j e).1;
  allocated = λ i j e. (late-IsLateJob i j e).2;
}

late_begin : (begin (10 ^ 12) late_manager).1 ≡ none
unfolding begin take_index scan lookup candidate String-discrete
late_begin = refl

late_job : lookup "k1" (begin (10 ^ 12) late_manager).0.jobs ≡ some (with_state expired waiting_job)
unfolding begin take_index scan lookup insert candidate String-discrete
late_job = refl

begin_idle_example : is_queued expired ≡ false
begin_idle_example =
    begin_idle (10 ^ 12) late_manager late-IsSound late_begin "k1" (with_state expired waiting_job)
      late_job

finish_lem_example :
    (IsForeign busy_run busy_manager
      × (finish host 11 busy_run (ok (1 ∷ 2 ∷ 3 ∷ [])) false busy_manager ≡ busy_manager))
    ⊎ ((j : Job) × IsOwn busy_run j busy_manager
        × Ends host 11 busy_run
            (ok (1 ∷ 2 ∷ 3 ∷ []))
            false
            j
            (finish host 11 busy_run (ok (1 ∷ 2 ∷ 3 ∷ [])) false busy_manager))
finish_lem_example =
    finish_lem host 11 busy_run (ok (1 ∷ 2 ∷ 3 ∷ [])) false busy_manager busy-IsSound.distinct

running_there : lookup "k2" busy_manager.jobs ≡ some running_job
unfolding lookup String-discrete
running_there = refl

last_leaves : length (discard "bob" running_job.subscribers) ≡ 0
unfolding discard String-discrete
last_leaves = refl

cancel_stops_example :
    ((cancel "bob" "k2" busy_manager).1 ≡ some 1)
    × (finish host 11 busy_run (ok (1 ∷ [])) false (cancel "bob" "k2" busy_manager).0
        ≡ (cancel "bob" "k2" busy_manager).0)
cancel_stops_example =
    cancel_stops "bob" host 11 busy_run (ok (1 ∷ [])) false busy_manager running_job running_there
      refl last_leaves

strangers : same "bob" "ann" ≡ false
unfolding String-discrete
strangers = refl

cancel_isolated_example :
    status 10 (cancel "bob" "k2" busy_manager).0 "ann" "k1" ≡ status 10 busy_manager "ann" "k1"
cancel_isolated_example = cancel_isolated 10 "bob" "ann" "k2" "k1" busy_manager strangers

counts_lem_example :
    let (waiting, working, files, _) = counts busy_manager in
    (waiting ≤ 8) × (working ≤ 1) × (files ≤ 2)
counts_lem_example = counts_lem sha busy_system busy-Inv
