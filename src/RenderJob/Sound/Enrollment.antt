-- ===== src/RenderJob/Sound/Enrollment.antt =====
-- The invariants of the jobs under `Admit`.
use go_graphics.Common.{
  ℕ, ◌≤◌, ◌≡◌, refl, String, Bool, true, false, some, List, [], ◌∷◌, arith, length, Bool-cases, ◌⊎◌,
  inl, inr, ◌<◌, Option-cases, String-discrete,
}
use go_graphics.Common.Dict.{lookup, insert-Distinct, lookup-insert}
use go_graphics.Common.Names.{contains, length-include, contains-append, contains-select}
use go_graphics.RenderJob.Model.{Manager, Host, Job, Request, Result, ok, err, Error}
use go_graphics.RenderJob.Cache.{prune}
use go_graphics.RenderJob.Protocol.{Publisher}
use go_graphics.RenderJob.Admission.{
  Entry, refuse, create, join, entry, apply_entry, add_job, new_job, joined, is_cached, enroll,
  place, admit, tidy_queue, is_waiting, identify_all,
}
use go_graphics.RenderJob.Admission.Atomic.{place_lem, IsAdmitted}
use go_graphics.RenderJob.Sound.{IsSound, IsBounded, IsLater, set_job-IsSound}
use go_graphics.RenderJob.Sound.Pruning.{prune-IsSound, prune-IsBounded}
use go_graphics.RenderJob.Sound.Placement.{place_cases, place-SameCache}

abbrev pub none_excepted : String → Bool
none_excepted _ = false

pub entry_join :
    (owner : String) (m : Manager) (id : String) (j : Job)
    → entry owner (lookup id m.jobs) (is_cached id m) ≡ join j
    → (lookup id m.jobs ≡ some j)
      × ((length j.subscribers < 24) ⊎ (contains owner j.subscribers ≡ true))
unfolding entry
entry_join owner m id j e = elim (Option-cases (lookup id m.jobs)) [
  | inl gone ↦ absurd (ground arith)
  | inr (k, there) ↦ (ground arith, ground arith)
]

joined-IsLater :
    (owner : String) (j : Job)
    → length j.subscribers ≤ 24
    → (length j.subscribers < 24) ⊎ (contains owner j.subscribers ≡ true)
    → IsLater j (joined owner j)
joined-IsLater owner j few room = record {
  live = λ h. h;
  queued = λ h. h;
  few = ground (arith, length-include owner j.subscribers);
  ref = refl;
}

add_job-IsSound :
    (now : ℕ) (owner id : String) (q : Request) (m : Manager)
    → IsSound none_excepted m
    → IsSound none_excepted (add_job m now owner id q)
unfolding add_job contains
add_job-IsSound now owner id q m s =
    let x = new_job m now owner (is_cached id m) q in
    record {
      distinct = insert-Distinct id x m.jobs s.distinct;
      uncached = λ i y f live ex. ground (arith, lookup-insert id i x m.jobs, s.uncached i y);
      few = λ i y f. ground (arith, lookup-insert id i x m.jobs, s.few i y);
      waiting = λ i y f q'.
          ground (
            arith,
            lookup-insert id i x m.jobs,
            s.waiting i y,
            contains-append i m.queue (id ∷ []),
          );
      allocated = λ i y f. ground (arith, lookup-insert id i x m.jobs, s.allocated i y);
    }

apply_entry-IsSound :
    (m : Manager) (now : ℕ) (owner id : String) (q : Request) (t : Entry)
    → entry owner (lookup id m.jobs) (is_cached id m) ≡ t
    → IsSound none_excepted m
    → IsSound none_excepted (apply_entry m now owner id q t).0
unfolding apply_entry
apply_entry-IsSound m now owner id q refuse e s = s
apply_entry-IsSound m now owner id q create e s = add_job-IsSound now owner id q m s
apply_entry-IsSound m now owner id q (join j) e s =
    let (there, room) = entry_join owner m id j e in
    set_job-IsSound none_excepted id j (joined owner j) m s there
      (joined-IsLater owner j (s.few id j there) room)

enroll-IsSound :
    (m : Manager) (now : ℕ) (owner : String) (batch : List (String × Request))
    → IsSound none_excepted m
    → IsSound none_excepted (enroll m now owner batch).0
unfolding enroll
enroll-IsSound m now owner [] s = s
enroll-IsSound m now owner ((id, q) ∷ rest) s =
    let t = entry owner (lookup id m.jobs) (is_cached id m) in
    let s' = apply_entry-IsSound m now owner id q t refl s in
    elim (Bool-cases (apply_entry m now owner id q t).1) [
      | inl fine ↦
          rw (fine, enroll) (enroll-IsSound (apply_entry m now owner id q t).0 now owner rest s')
      | inr full ↦ rw (full, enroll) s'
    ]

place-IsSound :
    (m : Manager) (now : ℕ) (owner : String) (batch : List (String × Request))
    → IsSound none_excepted m
    → IsSound none_excepted (place m now owner batch).0
place-IsSound m now owner batch s =
    let e = enroll-IsSound m now owner batch s in
    place_cases (IsSound none_excepted) m now owner batch s e (record {
      distinct = e.distinct;
      uncached = e.uncached;
      few = e.few;
      waiting = e.waiting;
      allocated = e.allocated;
    })

pub tidy_queue-IsSound :
    (except : String → Bool) (m : Manager) → IsSound except m → IsSound except (tidy_queue m)
unfolding tidy_queue
tidy_queue-IsSound except m s = record {
  distinct = s.distinct;
  uncached = s.uncached;
  few = s.few;
  waiting = λ i j e q. ground (arith, s.waiting i j e q, contains-select (is_waiting m) i m.queue);
  allocated = s.allocated;
}

tidy_queue-IsBounded : (m : Manager) → IsBounded m → IsBounded (tidy_queue m)
unfolding tidy_queue
tidy_queue-IsBounded m b = record { queued = b.queued; owned = b.owned; jobs = b.jobs }

admitted-IsBounded :
    (owner : String) (m k : Manager) (ids : List String)
    → k.cfg ≡ m.cfg
    → IsBounded m
    → IsAdmitted owner m ids k
    → IsBounded k
admitted-IsBounded owner m k ids c b a = record {
  queued = rw c a.queued;
  owned = λ o. elim (String-discrete o owner) [
    | yes e ↦ rw e a.owned
    | no ne ↦ omega (arith, a.others o ne, b.owned o)
  ];
  jobs = a.jobs;
}

place-IsBounded :
    (m : Manager) (now : ℕ) (owner : String) (batch : List (String × Request))
    → IsBounded m
    → IsBounded (place m now owner batch).0
place-IsBounded m now owner batch b = elim (place_lem m now owner batch) [
  | inl refused ↦ rw refused b
  | inr (_, a) ↦ admitted-IsBounded owner m _ _ (place-SameCache m now owner batch).cfg b a
]

result_cases {ℓ κ} :
    {A : Type ℓ} {P : Type κ} (r : Result A)
    → ((a : A) → r ≡ ok a → P)
    → ((e : Error) → r ≡ err e → P)
    → P
result_cases (ok a) f g = f a refl
result_cases (err e) f g = g e refl

-- The states that `admit` may end in.
pub admit_cases {ℓ} :
    (P : Manager → Type ℓ) (p : Publisher) (host : Host) (now : ℕ) (m : Manager) (owner : String)
    (qs : List Request)
    → P m
    → ((batch : List (String × Request))
        → identify_all p m.cfg.build qs ≡ ok batch
        → P (place (tidy_queue (prune host now m)) now owner batch).0)
    → P (admit p host now m owner qs).0
unfolding admit
admit_cases P p host now m owner qs same_state placed =
    result_cases (identify_all p m.cfg.build qs) (λ batch e. ground (arith, e, placed batch e))
      (λ x e. ground (arith, e))

-- Whether `Admit` admits or refuses, it keeps the invariant of the jobs (a live job has no image
-- in the cache and at most 24 subscribers, a queued one stands in the queue) and the limits on
-- queued jobs, on the live jobs of each owner and on all jobs.
pub admit_keeps :
    (p : Publisher) (host : Host) (now : ℕ) (m : Manager) (owner : String) (qs : List Request)
    → IsSound none_excepted m
    → IsBounded m
    → IsSound none_excepted (admit p host now m owner qs).0
      × IsBounded (admit p host now m owner qs).0
admit_keeps p host now m owner qs s b =
    let s' = tidy_queue-IsSound none_excepted _ (prune-IsSound none_excepted host now m s) in
    let b' = tidy_queue-IsBounded _ (prune-IsBounded host now m b) in
    (
      admit_cases (IsSound none_excepted) p host now m owner qs s
          (λ batch _. place-IsSound _ now owner batch s'),
      admit_cases IsBounded p host now m owner qs b
          (λ batch _. place-IsBounded _ now owner batch b'),
    )
