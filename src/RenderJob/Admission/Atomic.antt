-- ===== src/RenderJob/Admission/Atomic.antt =====
-- `Admit` behind the checks of the requests: its outcomes as a whole.
use go_graphics.Common.{
  ℕ, ◌≤◌, ◌≡◌, ◌≢◌, refl, String, Bool, true, false, not, ◌||◌, some, List, [], length, arith, All,
  inl, Bool-cases, inr, ◌⊎◌, Option-cases,
}
use go_graphics.Common.Names.{contains}
use go_graphics.RenderJob.Model.{Manager, Request, Result, ok, err, busy}
use go_graphics.RenderJob.Admission.{
  survey, enroll, ids_of, exceeds, place, queued_jobs, owned_jobs,
}
use go_graphics.RenderJob.Admission.Progress.{Touched, Progress}
use go_graphics.RenderJob.Admission.Batch.{IsEnrolled, survey-enroll}

start : (owner : String) (m : Manager) → Progress owner m 0 [] [] m
unfolding contains
start owner m = record {
  artifacts = refl;
  agrees = λ id. inl refl;
  made = λ id h. cc;
  met = λ id h. cc;
  queued = omega arith;
  owned = omega arith;
  others = λ o ne. omega arith;
  jobs = omega arith;
}

-- What an admission that succeeds has done.
pub record IsAdmitted (owner : String) (m : Manager) (ids : List String) (k : Manager)
    : Type 0 where
  pub touched : All (Touched owner k) ids
  pub artifacts : k.artifacts ≡ m.artifacts
  pub queued : queued_jobs k ≤ m.cfg.queue
  pub owned : owned_jobs owner k ≤ 4
  pub others : (o : String) → o ≢ owner → owned_jobs o k ≤ owned_jobs o m
  pub jobs : length k.jobs ≤ 5000

admitted :
    (owner : String) (m : Manager) (batch : List (String × Request)) (n : ℕ)
    (sets : List String × List String) (r : Manager × Bool)
    → n ≡ length batch
    → exceeds m owner (length batch) sets ≡ false
    → IsEnrolled owner m m n (ids_of batch) sets r
    → IsAdmitted owner m (ids_of batch) (record r.0 { wake = true })
admitted owner m batch n (fresh, added) r e x (fine, p, kept, all) = record {
  touched = all;
  artifacts = p.artifacts;
  queued = ground (arith, p.queued);
  owned = ground (arith, p.owned);
  others = p.others;
  jobs = ground (arith, p.jobs);
}

abbrev pub PlaceOutcome :
    Manager → String → List (String × Request) → Manager × Result (List String) → Type 0
PlaceOutcome m owner batch r =
    (r ≡ (m, err busy)) ⊎ ((r.1 ≡ ok (ids_of batch)) × IsAdmitted owner m (ids_of batch) r.0)

place_sets :
    (m : Manager) (now : ℕ) (owner : String) (batch : List (String × Request))
    (sets : List String × List String)
    → survey m owner (ids_of batch) [] [] ≡ some sets
    → exceeds m owner (length batch) sets ≡ false
    → (not m.enabled || m.closing) ≡ false
    → PlaceOutcome m owner batch (place m now owner batch)
unfolding place
place_sets m now owner batch sets s x on =
    let (n, c, done) = survey-enroll owner m m now batch 0 [] [] sets s (start owner m) in
    rw (on, s, x, done.0, place)
      (inr (refl, admitted owner m batch n sets (enroll m now owner batch) (omega arith) x done))

-- Behind the checks of the requests, `Admit` changes nothing and answers ErrBusy, or enrolls the whole
-- batch within the limits: at most four live jobs for the owner, no more than before for any other,
-- and no more queued jobs than the queue holds.
pub place_lem :
    (m : Manager) (now : ℕ) (owner : String) (batch : List (String × Request))
    → PlaceOutcome m owner batch (place m now owner batch)
place_lem m now owner batch = elim (Bool-cases (not m.enabled || m.closing)) [
  | inl off ↦ inl (unfold place in rw off)
  | inr on ↦ elim (Option-cases (survey m owner (ids_of batch) [] [])) [
    | inl refused ↦ inl (unfold place in rw (on, refused, place))
    | inr (sets, s) ↦ elim (Bool-cases (exceeds m owner (length batch) sets)) [
      | inl over ↦ inl (unfold place in rw (on, s, over, place))
      | inr x ↦ place_sets m now owner batch sets s x on
    ]
  ]
]
