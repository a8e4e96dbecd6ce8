-- ===== src/RenderJob/Worker/Outcome.antt =====
-- What the worker's second section makes of the job that it ran.
use go_graphics.Common.{
  refl, String, ℕ, Option, ◌≡◌, true, List, Bool, none, some, ◌⊎◌, false, arith, inl, inr,
  Bool-cases, Option-cases, ◌==◌, ◌&&◌,
}
use go_graphics.RenderJob.Worker.{deliver, Run, with_state, settle, finish}
use go_graphics.RenderJob.Model.{
  Host, Job, Manager, is_live, Error, Result, ok, is_running, failed, err, ready,
}
use go_graphics.Common.Dict.{Distinct, retain-Distinct, lookup, lookup-retain, lookup-insert_self}
use go_graphics.RenderJob.Cache.{
  forget_jobs, store, drop_artifact, remove, is_remembered, publish, new_artifact,
}
use go_graphics.RenderJob.Cache.Induction.{remove-cases, publish-keeps}
use go_graphics.RenderJob.Cache.Publication.{publish_stores}

module _ (id : String) (j : Job) (live : is_live j.state ≡ true) where
  Remains : Manager → Type 0
  Remains m = Distinct m.jobs × (lookup id m.jobs ≡ some j)

  remove-Remains :
      (host : Host) (i : String) (m : Manager) → Remains m → Remains (remove host i m).0
  unfolding Remains drop_artifact
  remove-Remains host i m r = remove-cases Remains host i m r (λ _. r)

  forget_jobs-Remains : (now : ℕ) (m : Manager) → Remains m → Remains (forget_jobs now m)
  unfolding Remains forget_jobs
  forget_jobs-Remains now m (d, e) = (
    retain-Distinct (is_remembered now) m.jobs d,
    ground (arith, lookup-retain (is_remembered now) id m.jobs d),
  )

  -- A live job outlasts a publication.
  pub publish_remembers :
      (host : Host) (now : ℕ) (i : String) (b : List ℕ) (m : Manager)
      → Distinct m.jobs
      → lookup id m.jobs ≡ some j
      → lookup id (publish host now i b m).0.jobs ≡ some j
  unfolding Remains store
  publish_remembers host now i b m d e =
      (publish-keeps host Remains (remove-Remains host) now (forget_jobs-Remains now) i b (λ k r. r)
        m (d, e)).1

-- A job that ended ready has its image's bytes on disk and an entry of their digest, unless the
-- deadline passed after the last look at it.
abbrev pub IsDelivered : Host → ℕ → Run → Result (List ℕ) → Bool → Manager → Type 0
IsDelivered host now run r late k =
    (b : List ℕ) × (r ≡ ok b)
    × ((late ≡ true)
        ⊎ ((lookup run.id k.disk ≡ some b)
            × (lookup run.id k.artifacts ≡ some (new_artifact host now b))))

-- The job's state at the end.
abbrev pub Ends : Host → ℕ → Run → Result (List ℕ) → Bool → Job → Manager → Type 0
Ends host now run r late j k =
    (lookup run.id k.jobs ≡ some (with_state failed j))
    ⊎ ((lookup run.id k.jobs ≡ some (with_state ready j)) × IsDelivered host now run r late k)

settle-Ends :
    (host : Host) (now : ℕ) (run : Run) (r : Result (List ℕ)) (late : Bool) (j : Job) (k : Manager)
    (e : Option Error)
    → lookup run.id k.jobs ≡ some j
    → (e ≡ none → k.closing ≡ false → IsDelivered host now run r late k)
    → Ends host now run r late j (settle run.id (k, e))
settle-Ends host now run r late j k (some e) f d =
    inl (rw (settle, f) (lookup-insert_self run.id (with_state failed j) k.jobs))
settle-Ends host now run r late j k none f d = elim (Bool-cases k.closing) [
  | inl closing ↦
      inl (rw (settle, f, closing) (lookup-insert_self run.id (with_state failed j) k.jobs))
  | inr going ↦ inr (
    rw (settle, f, going) (lookup-insert_self run.id (with_state ready j) k.jobs),
    rw (settle, f) (d refl going),
  )
]

pub deliver_cases {ℓ} :
    (P : Manager × Option Error → Type ℓ) (host : Host) (now : ℕ) (id : String) (b : List ℕ)
    (late : Bool) (m : Manager)
    → (late ≡ true → P (m, none))
    → (m.closing ≡ true → P (m, none))
    → P (publish host now id b m)
    → P (deliver host now id (ok b) late m)
unfolding deliver
deliver_cases P host now id b late m p q r = ground arith

deliver-Ends :
    (host : Host) (now : ℕ) (run : Run) (r : Result (List ℕ)) (late : Bool) (j : Job) (m : Manager)
    → Distinct m.jobs
    → lookup run.id m.jobs ≡ some j
    → is_running j.state ≡ true
    → Ends host now run r late j (settle run.id (deliver host now run.id r late m))
unfolding deliver
deliver-Ends host now run (err e) late j m d f s =
    settle-Ends host now run (err e) late j m (some e) f (λ n. absurd cc)
deliver-Ends host now run (ok b) late j m d f s =
    deliver_cases (λ p. Ends host now run (ok b) late j (settle run.id p)) host now run.id b late m
      (λ l. settle-Ends host now run (ok b) late j m none f (λ _ _. (b, refl, inl l)))
      (λ c. settle-Ends host now run (ok b) late j m none f (λ _ g. absurd (ground (arith, c, g))))
      (settle-Ends host now run (ok b) late j (publish host now run.id b m).0
        (publish host now run.id b m).1
        (publish_remembers run.id j (ground arith) host now run.id b m d f)
        (λ e _. (b, refl, inr (publish_stores host now run.id b m e))))

-- The job is the one that the worker runs, not cancelled and not replaced by a later one.
abbrev pub IsOwn : Run → Job → Manager → Type 0
IsOwn run j m = (lookup run.id m.jobs ≡ some j) × (j.ref ≡ run.ref) × (is_running j.state ≡ true)

abbrev pub IsForeign : Run → Manager → Type 0
IsForeign run m = (j : Job) → IsOwn run j m → ⊥

-- If each id has one job, the worker's second section changes nothing if the job was cancelled or
-- replaced meanwhile. Otherwise the job ends as failed, or as ready with exactly the rendered
-- bytes on disk and their entry in the cache, except that a deadline which passes late may leave a
-- ready job without an image.
pub finish_lem :
    (host : Host) (now : ℕ) (run : Run) (r : Result (List ℕ)) (late : Bool) (m : Manager)
    → Distinct m.jobs
    → (IsForeign run m × (finish host now run r late m ≡ m))
      ⊎ ((j : Job) × IsOwn run j m × Ends host now run r late j (finish host now run r late m))
unfolding finish
finish_lem host now run r late m d = elim (Option-cases (lookup run.id m.jobs)) [
  | inl gone ↦ inl (λ j o. absurd (ground (arith, o.0)), rw (gone, finish) refl)
  | inr (j, there) ↦ elim (Bool-cases ((j.ref == run.ref) && is_running j.state)) [
    | inl yours ↦ inr (
      j,
      (there, ground (arith, yours), ground (arith, yours)),
      rw (there, finish, yours)
          (deliver-Ends host now run r late j m d there (ground (arith, yours))),
    )
    | inr other ↦
        inl (λ k o. absurd (ground (arith, o.0, o.1, o.2)), rw (there, finish, other) refl)
  ]
]
