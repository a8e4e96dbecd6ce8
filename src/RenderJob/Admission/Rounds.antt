-- ===== src/RenderJob/Admission/Rounds.antt =====
-- One round of the second loop of `Admit` against one round of the first.
use go_graphics.Common.{
  ℕ, ◌+◌, ◌≤◌, ◌≡◌, ◌≢◌, refl, String, Bool, true, false, ◌&&◌, ◌||◌, ◌⊎◌, inl, inr, Option, none,
  some, List, length, arith, same, Bool-cases, subst, sym,
}
use go_graphics.Common.Dict.{lookup}
use go_graphics.Common.Names.{contains, include, contains-include, length-include}
use go_graphics.RenderJob.Model.{Manager, Job, Request, is_ready, is_live}
use go_graphics.RenderJob.Admission.{
  Verdict, refuses, joins, creates, verdict, join, create, entry, apply_entry, is_cached, new_job,
  joined,
}
use go_graphics.RenderJob.Admission.Progress.{
  Touched, Progress, Write, write_step, write_here, write_keeps,
}

-- The sets of the first loop after one more id.
abbrev pub fresh_after : Verdict → String → List String → List String
fresh_after creates id fresh = include id fresh
fresh_after _ id fresh = fresh

abbrev pub added_after : Verdict → String → List String → List String
added_after joins id added = include id added
added_after _ id added = added

-- Two sets grow by the id at most.
abbrev Grows : String → List String → List String → Type 0
Grows id set set' =
    ((j : String) → contains j set' ≡ true → (same id j || contains j set) ≡ true)
    × (length set ≤ length set')

Grows-same : (id : String) (set : List String) → Grows id set set
Grows-same id set = (λ j c. ground arith, omega arith)

Grows-include : (id : String) (set : List String) → Grows id set (include id set)
Grows-include id set =
    (λ j c. ground (arith, contains-include id j set), ground (arith, length-include id set))

fresh_after-Grows :
    (v : Verdict) (id : String) (set : List String) → Grows id set (fresh_after v id set)
fresh_after-Grows creates id set = Grows-include id set
fresh_after-Grows _ id set = Grows-same id set

added_after-Grows :
    (v : Verdict) (id : String) (set : List String) → Grows id set (added_after v id set)
added_after-Grows joins id set = Grows-include id set
added_after-Grows _ id set = Grows-same id set

module _ (owner : String) (k : Manager) (now : ℕ) (id : String) (q : Request) where
  join-Write :
      (j : Job) (d : ℕ)
      → lookup id k.jobs ≡ some j
      → (is_live j.state || (is_ready j.state && is_cached id k)) ≡ true
      → (is_live j.state ≡ false) ⊎ ((contains owner j.subscribers ≡ true) ⊎ (1 ≤ d))
      → Write owner k id (joined owner j) (apply_entry k now owner id q (join j)).0 0 d
  unfolding apply_entry
  join-Write j d e u g = record {
    written = refl;
    same_artifacts = refl;
    subscribed = ground (arith, contains-include owner owner j.subscribers);
    useful = u;
    queued = ground arith;
    owned = ground (arith, contains-include owner owner j.subscribers);
    others = λ o ne. ground (arith, contains-include owner o j.subscribers);
  }

  create-Write :
      (d : ℕ)
      → (is_cached id k ≡ true) ⊎ (1 ≤ d)
      → Write owner k id
          (new_job k now owner (is_cached id k) q)
          (apply_entry k now owner id q create).0
          d
          d
  unfolding apply_entry contains
  create-Write d g = record {
    written = refl;
    same_artifacts = refl;
    subscribed = ground arith;
    useful = ground arith;
    queued = ground arith;
    owned = ground arith;
    others = λ o ne. ground arith;
  }

abbrev is_useful : Bool → Job → Bool
is_useful cached j = is_live j.state || (is_ready j.state && cached)

-- What the second loop does with an id whose job the first loop saw as it is.
abbrev Joins : String → Option Job → Bool → Verdict → Job → Type 0
Joins owner old cached v j =
    (entry owner old cached ≡ join j)
    × (old ≡ some j)
    × (is_useful cached j ≡ true)
    × ((is_live j.state ≡ false) ⊎ ((contains owner j.subscribers ≡ true) ⊎ (v ≡ joins)))

abbrev Creates : String → Option Job → Bool → Verdict → Type 0
Creates owner old cached v = (entry owner old cached ≡ create) × ((cached ≡ true) ⊎ (v ≡ creates))

entry_of_verdict :
    (owner : String) (old : Option Job) (cached : Bool) (v : Verdict)
    → verdict owner old cached ≡ v
    → v ≢ refuses
    → ((j : Job) × Joins owner old cached v j) ⊎ Creates owner old cached v
unfolding entry verdict
entry_of_verdict owner none cached v e n = inr (refl, ground arith)
entry_of_verdict owner (some j) cached v e n = elim (Bool-cases (is_useful cached j)) [
  | inl useful ↦ inl (j, (ground arith, refl, useful, ground arith))
  | inr not_useful ↦ inr (ground arith, ground arith)
]

entry_touched :
    (owner : String) (j : Job) (cached : Bool)
    → contains owner j.subscribers ≡ true
    → is_useful cached j ≡ true
    → entry owner (some j) cached ≡ join j
unfolding entry
entry_touched owner j cached s u = ground arith

-- The state and the answer after the round for `id`.
abbrev pub Round : Manager → ℕ → String → String → Request → Manager × Bool
Round k now owner id q =
    apply_entry k now owner id q (entry owner (lookup id k.jobs) (is_cached id k))

abbrev pub IsRound :
    String → Manager → Manager → ℕ → List String → List String → String → Manager × Bool → Type 0
IsRound owner m k n fresh added id r =
    (r.1 ≡ true)
    × Progress owner m (n + 1) fresh added r.0
    × Touched owner r.0 id
    × ((j : String) → Touched owner k j → Touched owner r.0 j)

module _ (owner : String) (m k : Manager) (now : ℕ) (id : String) (q : Request) (n : ℕ)
    (fresh added : List String) (p : Progress owner m n fresh added k) (v : Verdict) where
  abbrev pub fresh' : List String
  fresh' = fresh_after v id fresh

  abbrev pub added' : List String
  added' = added_after v id added

  join_round :
      (j : Job) (d : ℕ)
      → entry owner (lookup id k.jobs) (is_cached id k) ≡ join j
      → lookup id k.jobs ≡ some j
      → is_useful (is_cached id k) j ≡ true
      → (is_live j.state ≡ false) ⊎ ((contains owner j.subscribers ≡ true) ⊎ (1 ≤ d))
      → length added + d ≤ length added'
      → IsRound owner m k n fresh' added' id (Round k now owner id q)
  join_round j d e h u g room =
      let w = join-Write owner k now id q j d h u g in
      let f = fresh_after-Grows v id fresh in
      let a = added_after-Grows v id added in
      subst (λ t. IsRound owner m k n fresh' added' id (apply_entry k now owner id q t)) (sym e)
        (
          (unfold apply_entry in refl),
          write_step w fresh' added' p f.0 a.0 (omega (arith, f.1)) (omega (arith, f.1)),
          write_here w,
          write_keeps w,
        )

  create-round :
      (d : ℕ)
      → entry owner (lookup id k.jobs) (is_cached id k) ≡ create
      → (is_cached id k ≡ true) ⊎ (1 ≤ d)
      → length fresh + d ≤ length fresh'
      → IsRound owner m k n fresh' added' id (Round k now owner id q)
  create-round d e g room =
      let w = create-Write owner k now id q d g in
      let f = fresh_after-Grows v id fresh in
      let a = added_after-Grows v id added in
      subst (λ t. IsRound owner m k n fresh' added' id (apply_entry k now owner id q t)) (sym e)
        (
          (unfold apply_entry in refl),
          write_step w fresh' added' p f.0 a.0 room (omega (arith, a.1)),
          write_here w,
          write_keeps w,
        )

  Touched-round : Touched owner k id → IsRound owner m k n fresh' added' id (Round k now owner id q)
  Touched-round (j, e, s, u) =
      join_round j 0 (rw e (entry_touched owner j (is_cached id k) s u)) e u (inr (inl s))
        (omega (arith, (added_after-Grows v id added).1))

  untouched_round :
      contains id fresh ≡ false
      → contains id added ≡ false
      → ((j : Job) × Joins owner (lookup id k.jobs) (is_cached id k) v j)
        ⊎ Creates owner (lookup id k.jobs) (is_cached id k) v
      → IsRound owner m k n fresh' added' id (Round k now owner id q)
  untouched_round f a (inl (j, (e, h, u, inl idle))) =
      join_round j 0 e h u (inl idle) (omega (arith, (added_after-Grows v id added).1))
  untouched_round f a (inl (j, (e, h, u, inr (inl s)))) =
      join_round j 0 e h u (inr (inl s)) (omega (arith, (added_after-Grows v id added).1))
  untouched_round f a (inl (j, (e, h, u, inr (inr is_join)))) =
      join_round j 1 e h u (inr (inr (omega arith)))
        (rw is_join (ground (arith, length-include id added)))
  untouched_round f a (inr (e, inl c)) =
      create-round 0 e (inl c) (omega (arith, (fresh_after-Grows v id fresh).1))
  untouched_round f a (inr (e, inr is_create)) =
      create-round 1 e (inr (omega arith)) (rw is_create (ground (arith, length-include id fresh)))

  pub round :
      verdict owner (lookup id m.jobs) (is_cached id m) ≡ v
      → v ≢ refuses
      → IsRound owner m k n fresh' added' id (Round k now owner id q)
  round e ne = elim (Bool-cases (contains id fresh)) [
    | inl c ↦ Touched-round (p.made id c)
    | inr f ↦ elim (Bool-cases (contains id added)) [
      | inl c ↦ Touched-round (p.met id c)
      | inr a ↦ elim (p.agrees id) [
        | inr t ↦ Touched-round t
        | inl h ↦ untouched_round f a (
            entry_of_verdict owner (lookup id k.jobs) (is_cached id k) v (rw (h, p.artifacts) e) ne)
      ]
    ]
  ]
