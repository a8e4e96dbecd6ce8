-- ===== src/RenderJob/Admission/Progress.antt =====
-- The two loops of `Admit` side by side: what the first counts, and what the second writes.
use go_graphics.Common.{
  ℕ, ◌+◌, ◌≤◌, ◌≡◌, ◌≢◌, String, true, ◌&&◌, ◌||◌, ◌⊎◌, inl, inr, some, List, length, arith, bit,
  same, ◌∙◌, Bool-cases, subst,
}
use go_graphics.Common.Dict.{
  lookup, insert, sum_of, weight, sum_of-insert, lookup-insert, length-sum_of, lookup-insert_self,
}
use go_graphics.Common.Names.{contains}
use go_graphics.RenderJob.Model.{Manager, Job, is_queued, is_ready, is_live}
use go_graphics.RenderJob.Admission.{queued_jobs, owned_jobs, is_owned, is_cached}

-- The owner subscribes to a job of that id that is at work, or whose image is there.
abbrev pub Touched : String → Manager → String → Type 0
Touched owner m id =
    (j : Job) × (lookup id m.jobs ≡ some j)
    × (contains owner j.subscribers ≡ true)
    × ((is_live j.state || (is_ready j.state && is_cached id m)) ≡ true)

abbrev pub queued_weight : Job → ℕ
queued_weight j = bit (is_queued j.state)

abbrev pub owned_weight : String → Job → ℕ
owned_weight owner j = bit (is_owned owner j)

-- After `n` ids of the batch, with the sets `fresh` and `added` of the first loop, which read `m`,
-- the second has come from `m` to `k`.
pub record Progress (owner : String) (m : Manager) (n : ℕ) (fresh added : List String) (k : Manager)
    : Type 0 where
  pub artifacts : k.artifacts ≡ m.artifacts
  pub agrees : (id : String) → (lookup id k.jobs ≡ lookup id m.jobs) ⊎ Touched owner k id
  pub made : (id : String) → contains id fresh ≡ true → Touched owner k id
  pub met : (id : String) → contains id added ≡ true → Touched owner k id
  pub queued : queued_jobs k ≤ queued_jobs m + length fresh
  pub owned : owned_jobs owner k ≤ owned_jobs owner m + length fresh + length added
  pub others : (o : String) → o ≢ owner → owned_jobs o k ≤ owned_jobs o m
  pub jobs : length k.jobs ≤ length m.jobs + n

-- A job written under `id`, with what it adds to the counts.
pub record Write (owner : String) (k : Manager) (id : String) (x : Job) (k' : Manager) (dq do' : ℕ)
    : Type 0 where
  pub written : k'.jobs ≡ insert id x k.jobs
  pub same_artifacts : k'.artifacts ≡ k.artifacts
  pub subscribed : contains owner x.subscribers ≡ true
  pub useful : (is_live x.state || (is_ready x.state && is_cached id k)) ≡ true
  pub queued : queued_weight x ≤ weight queued_weight (lookup id k.jobs) + dq
  pub owned : owned_weight owner x ≤ weight (owned_weight owner) (lookup id k.jobs) + do'
  pub others :
      (o : String) → o ≢ owner → owned_weight o x ≤ weight (owned_weight o) (lookup id k.jobs)

module _ {owner : String} {k : Manager} {id : String} {x : Job} {k' : Manager} {dq do' : ℕ}
    (w : Write owner k id x k' dq do') where
  pub write_here : Touched owner k' id
  write_here = (
    x,
    rw w.written (lookup-insert_self id x k.jobs),
    w.subscribed,
    ground (arith, w.useful, w.same_artifacts),
  )

  pub write_keeps : (j : String) → Touched owner k j → Touched owner k' j
  write_keeps j (y, e, s, u) = elim (Bool-cases (same id j)) [
    | inl here ↦ subst (Touched owner k') (ground arith) write_here
    | inr there ↦ (
      y,
      rw w.written (ground (arith, lookup-insert id j x k.jobs)),
      s,
      ground (arith, w.same_artifacts),
    )
  ]

  write_agrees :
      (m : Manager) (j : String)
      → (lookup j k.jobs ≡ lookup j m.jobs) ⊎ Touched owner k j
      → (lookup j k'.jobs ≡ lookup j m.jobs) ⊎ Touched owner k' j
  write_agrees m j (inr t) = inr (write_keeps j t)
  write_agrees m j (inl e) = elim (Bool-cases (same id j)) [
    | inl here ↦ inr (subst (Touched owner k') (ground arith) write_here)
    | inr there ↦ inl (rw w.written (ground (arith, lookup-insert id j x k.jobs)))
  ]

  write_member :
      (set set' : List String) (j : String)
      → ((i : String) → contains i set ≡ true → Touched owner k i)
      → (contains j set' ≡ true → (same id j || contains j set) ≡ true)
      → contains j set' ≡ true
      → Touched owner k' j
  write_member set set' j old grow c = elim (Bool-cases (same id j)) [
    | inl here ↦ subst (Touched owner k') (ground arith) write_here
    | inr there ↦ write_keeps j (old j (ground arith))
  ]

  write_sum :
      (f : Job → ℕ) (d : ℕ)
      → f x ≤ weight f (lookup id k.jobs) + d
      → sum_of f k'.jobs ≤ sum_of f k.jobs + d
  write_sum f d h = rw w.written (omega (arith, sum_of-insert f id x k.jobs))

  -- One round of both loops.
  pub write_step :
      {m : Manager} {n : ℕ} {fresh added : List String} (fresh' added' : List String)
      → Progress owner m n fresh added k
      → ((j : String) → contains j fresh' ≡ true → (same id j || contains j fresh) ≡ true)
      → ((j : String) → contains j added' ≡ true → (same id j || contains j added) ≡ true)
      → length fresh + dq ≤ length fresh'
      → length fresh + length added + do' ≤ length fresh' + length added'
      → Progress owner m (n + 1) fresh' added' k'
  write_step {m} {n} {fresh} {added} fresh' added' p f a lf la = record {
    artifacts = w.same_artifacts ∙ p.artifacts;
    agrees = λ j. write_agrees m j (p.agrees j);
    made = λ j. write_member fresh fresh' j p.made (f j);
    met = λ j. write_member added added' j p.met (a j);
    queued = omega (arith, write_sum queued_weight dq w.queued, p.queued);
    owned = omega (arith, write_sum (owned_weight owner) do' w.owned, p.owned);
    others = λ o ne.
        omega (arith, write_sum (owned_weight o) 0 (omega (arith, w.others o ne)), p.others o ne);
    jobs = omega (
      arith,
      write_sum (λ _. 1) 1 (omega arith),
      p.jobs,
      length-sum_of k.jobs,
      length-sum_of k'.jobs,
    );
  }
