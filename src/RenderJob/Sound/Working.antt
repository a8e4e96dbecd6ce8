-- ===== src/RenderJob/Sound/Working.antt =====
-- The invariants of the jobs under the worker's second section.
use go_graphics.Common.{
  if◌then◌else◌, ◌||◌, refl, String, ℕ, Option, ◌≡◌, List, false, none, same, Bool, some, arith,
  Option-cases, true, inl, inr, Bool-cases, ◌==◌, ◌&&◌,
}
use go_graphics.RenderJob.Worker.{deliver, Run, settle, finish, with_state}
use go_graphics.RenderJob.Model.{
  State, Host, Job, Manager, is_live, Result, Error, err, ok, is_running, failed, ready,
}
use go_graphics.RenderJob.Sound.{IsSound, IsBounded, set_job, set_job-IsBounded}
use go_graphics.Common.Dict.{lookup, insert-Distinct, lookup-insert}
use go_graphics.RenderJob.Sound.Enrollment.{none_excepted}
use go_graphics.RenderJob.Sound.Pruning.{publish-IsSound, publish-IsBounded}
use go_graphics.RenderJob.Cache.{present}

weaken_except : (id : String) (m : Manager) → IsSound none_excepted m → IsSound (same id) m
weaken_except id m s = record {
  distinct = s.distinct;
  uncached = λ i j e l _. s.uncached i j e l refl;
  few = s.few;
  waiting = s.waiting;
  allocated = s.allocated;
}

deliver-IsSound :
    (host : Host) (now : ℕ) (id : String) (r : Result (List ℕ)) (late : Bool) (m : Manager)
    → IsSound (same id) m
    → IsSound (same id) (deliver host now id r late m).0
unfolding deliver
deliver-IsSound host now id (err e) late m s = s
deliver-IsSound host now id (ok b) late m s = ground (arith, publish-IsSound host now id b m s)

deliver-IsBounded :
    (host : Host) (now : ℕ) (id : String) (r : Result (List ℕ)) (late : Bool) (m : Manager)
    → IsBounded m
    → IsBounded (deliver host now id r late m).0
unfolding deliver
deliver-IsBounded host now id (err e) late m s = s
deliver-IsBounded host now id (ok b) late m s = ground (arith, publish-IsBounded host now id b m s)

abbrev IsOver : State → Type 0
IsOver s = is_live s ≡ false

end_job-IsSound :
    (id : String) (j : Job) (t : State) (m : Manager)
    → is_live t ≡ false
    → IsSound (same id) m
    → lookup id m.jobs ≡ some j
    → IsSound none_excepted (set_job id (with_state t j) m)
end_job-IsSound id j t m over s e = record {
  distinct = insert-Distinct id (with_state t j) m.jobs s.distinct;
  uncached = λ i y f l _.
      ground (arith, lookup-insert id i (with_state t j) m.jobs, s.uncached i y, over, l);
  few = λ i y f. ground (arith, lookup-insert id i (with_state t j) m.jobs, s.few i y, s.few id j);
  waiting =
      λ i y f q. ground (arith, lookup-insert id i (with_state t j) m.jobs, s.waiting i y, over, q);
  allocated = λ i y f.
      ground (arith, lookup-insert id i (with_state t j) m.jobs, s.allocated i y, s.allocated id j);
}

nobody_there :
    (id : String) (m : Manager)
    → lookup id m.jobs ≡ none
    → IsSound (same id) m
    → IsSound none_excepted m
nobody_there id m e s = record {
  distinct = s.distinct;
  uncached = λ i y f l _. ground (arith, s.uncached i y, l, e);
  few = s.few;
  waiting = s.waiting;
  allocated = s.allocated;
}

settle_state_over : (b : Bool) → is_live (if b then failed else ready) ≡ false
settle_state_over b = ground arith

settle-IsSound :
    (id : String) (m : Manager) (e : Option Error)
    → IsSound (same id) m
    → IsSound none_excepted (settle id (m, e))
settle-IsSound id m e s = elim (Option-cases (lookup id m.jobs)) [
  | inl gone ↦ rw (gone, settle) (nobody_there id m gone s)
  | inr (j, there) ↦
      rw (there, settle)
        (end_job-IsSound id j (if present e || m.closing then failed else ready) m
          (settle_state_over (present e || m.closing)) s there)
]

settle-IsBounded :
    (id : String) (m : Manager) (e : Option Error) → IsBounded m → IsBounded (settle id (m, e))
settle-IsBounded id m e b = elim (Option-cases (lookup id m.jobs)) [
  | inl gone ↦ rw (gone, settle) b
  | inr (j, there) ↦
      rw (there, settle)
        (set_job-IsBounded id j (with_state (if present e || m.closing then failed else ready) j) m
          b there (ground arith, λ o. ground arith))
]

module _ (host : Host) (now : ℕ) (run : Run) (r : Result (List ℕ)) (late : Bool) (m : Manager) where
  pub finish_cases {ℓ} :
      (P : Manager → Type ℓ)
      → P m
      → ((j : Job)
          → lookup run.id m.jobs ≡ some j
          → j.ref ≡ run.ref
          → is_running j.state ≡ true
          → P (settle run.id (deliver host now run.id r late m)))
      → P (finish host now run r late m)
  unfolding finish
  finish_cases P p q = elim (Option-cases (lookup run.id m.jobs)) [
    | inl gone ↦ rw (gone, finish) p
    | inr (j, there) ↦ elim (Bool-cases ((j.ref == run.ref) && is_running j.state)) [
      | inl yours ↦
          rw (there, finish, yours) (q j there (ground (arith, yours)) (ground (arith, yours)))
      | inr other ↦ rw (there, finish, other) p
    ]
  ]

  pub finish-IsSound :
      IsSound none_excepted m → IsSound none_excepted (finish host now run r late m)
  finish-IsSound s = finish_cases (IsSound none_excepted) s λ j e f g.
      settle-IsSound run.id _ _
        (deliver-IsSound host now run.id r late m (weaken_except run.id m s))

  pub finish-IsBounded : IsBounded m → IsBounded (finish host now run r late m)
  finish-IsBounded b =
      finish_cases IsBounded b
        λ j e f g. settle-IsBounded run.id _ _ (deliver-IsBounded host now run.id r late m b)
