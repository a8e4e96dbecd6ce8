-- ===== src/RenderJob/Sound/Finishing.antt =====
-- The running job under the worker's second section.
use go_graphics.Common.{
  if◌then◌else◌, ◌||◌, ◌==◌, ◌&&◌, Option, List, ℕ, String, ◌≡◌, same, none, false, some,
  Bool-cases, arith, inl, inr, true, Option-cases, Bool, same_refl, some_inj,
}
use go_graphics.RenderJob.Worker.{Run, with_state, finish, deliver, settle, set_job}
use go_graphics.RenderJob.Model.{
  Manager, Host, Job, ok, is_running, State, Error, Result, err, failed, ready,
}
use go_graphics.RenderJob.Sound.Running.{IsServed, change-IsServed, publish-IsServed}
use go_graphics.Common.Dict.{lookup, lookup-insert}
use go_graphics.RenderJob.Cache.{present}
use go_graphics.RenderJob.Worker.Outcome.{deliver_cases}

end_job-IsServed :
    (run : Run) (j : Job) (t : State) (m : Manager)
    → is_running t ≡ false
    → IsServed (some run) m
    → lookup run.id m.jobs ≡ some j
    → IsServed none (set_job run.id (with_state t j) m)
end_job-IsServed run j t m over s e =
    let c =
      change-IsServed (some run) run.id j (with_state t j) m s e
        (λ f. absurd (ground (arith, f, over))) in
    record {
      distinct = c.distinct;
      named = c.named;
      runs = λ i y f g. absurd (not_there run j t m i y over s f g);
    }
  where
    not_there :
        (run : Run) (j : Job) (t : State) (m : Manager) (i : String) (y : Job)
        → is_running t ≡ false
        → IsServed (some run) m
        → lookup i (set_job run.id (with_state t j) m).jobs ≡ some y
        → is_running y.state ≡ true
        → ⊥
    not_there run j t m i y over s f g = elim (Bool-cases (same run.id i)) [
      | inl here ↦ ground (arith, lookup-insert run.id i (with_state t j) m.jobs, here, f, g, over)
      | inr there ↦
          let (r, p, q, _) =
            s.runs i y (ground (arith, lookup-insert run.id i (with_state t j) m.jobs)) g in
          ground (arith, p, q, same_refl i)
    ]

nobody-IsServed :
    (run : Run) (m : Manager)
    → IsServed (some run) m
    → ((j : Job) → lookup run.id m.jobs ≡ some j → j.ref ≡ run.ref → is_running j.state ≡ true → ⊥)
    → IsServed none m
nobody-IsServed run m s out = record {
  distinct = s.distinct;
  named = s.named;
  runs = λ i y f g.
      let (r, p, q, t) = s.runs i y f g in
      let c : run ≡ r = some_inj p in
      absurd (out y (ground (arith, c, q, f)) (ground (arith, c, t)) g);
}

settle-IsServed :
    (run : Run) (m : Manager) (e : Option Error)
    → IsServed (some run) m
    → IsServed none (settle run.id (m, e))
settle-IsServed run m e s = elim (Option-cases (lookup run.id m.jobs)) [
  | inl gone ↦ rw (gone, settle) (nobody-IsServed run m s (λ j f. absurd (ground (arith, gone, f))))
  | inr (j, there) ↦
      rw (there, settle)
        (end_job-IsServed run j (if present e || m.closing then failed else ready) m (ground arith)
          s there)
]

deliver-IsServed :
    (run : Option Run) (host : Host) (now : ℕ) (id : String) (r : Result (List ℕ)) (late : Bool)
    (m : Manager)
    → IsServed run m
    → IsServed run (deliver host now id r late m).0
unfolding deliver
deliver-IsServed run host now id (err e) late m s = s
deliver-IsServed run host now id (ok b) late m s =
    deliver_cases (λ p. IsServed run p.0) host now id b late m (λ _. s) (λ _. s)
      (publish-IsServed run host now id b m s)

-- When the worker's second section is over, no job is running.
pub finish-IsServed :
    (host : Host) (now : ℕ) (run : Run) (r : Result (List ℕ)) (late : Bool) (m : Manager)
    → IsServed (some run) m
    → IsServed none (finish host now run r late m)
unfolding finish
finish-IsServed host now run r late m s = elim (Option-cases (lookup run.id m.jobs)) [
  | inl gone ↦ rw (gone, finish) (nobody-IsServed run m s (λ j f. absurd (ground (arith, gone, f))))
  | inr (j, there) ↦ elim (Bool-cases ((j.ref == run.ref) && is_running j.state)) [
    | inl yours ↦
        rw (there, finish, yours)
          (settle-IsServed run _ _ (deliver-IsServed (some run) host now run.id r late m s))
    | inr other ↦
        rw (there, finish, other)
          (nobody-IsServed run m s (λ k f g h. ground (arith, there, f, g, h)))
  ]
]
