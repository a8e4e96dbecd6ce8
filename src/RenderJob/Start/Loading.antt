-- ===== src/RenderJob/Start/Loading.antt =====
-- `reconcile`: the two changes that it makes to the state.
use go_graphics.Common.{
  [], ◌∷◌, String, List, ℕ, All, same, ◌≡◌, ◌≢◌, some, false, none, Bool-cases, length, inl, arith,
  subst, same_eq, inr,
}
use go_graphics.Common.Int.{◌+ℤ◌}
use go_graphics.RenderJob.Leases.Counting.{count}
use go_graphics.RenderJob.Model.{Manager}
use go_graphics.RenderJob.Start.{FileEntry, stem, lose, is_refused, enter, loaded}
use go_graphics.Common.Dict.{
  lookup, insert-Distinct, lookup-insert, sum_of-insert, lookup-delete, length-sum_of, insert,
}
use go_graphics.RenderJob.System.Kept.{IsKept}
use go_graphics.RenderJob.Cache.Consistent.{size_of}

-- No later entry has this stem.
abbrev pub IsFreshStem : String → List FileEntry → Type 0
IsFreshStem id rest = All (λ f. stem f.name ≢ some id) rest

-- The names in a directory are distinct.
abbrev pub HasDistinctStems : List FileEntry → Type 0
HasDistinctStems [] = Unit
HasDistinctStems (e ∷ rest) =
    ((id : String) → stem e.name ≡ some id → IsFreshStem id rest) × HasDistinctStems rest

-- The ids that are still to come have no entry, and their files are on disk.
abbrev pub AllAhead : Manager → List FileEntry → Type 0
AllAhead m rest =
    All
      (λ f.
        (id : String)
        → stem f.name ≡ some id
        → (lookup id m.artifacts ≡ none) × (lookup id m.disk ≡ some f.content))
      rest

pub record IsLoading (sha : List ℕ → String) (m : Manager) : Type 0 where
  pub kept : IsKept sha [] m
  pub jobs : m.jobs ≡ []

pub lose-IsLoading :
    (sha : List ℕ → String) (id : String) (m : Manager)
    → IsLoading sha m
    → lookup id m.artifacts ≡ none
    → IsLoading sha (lose id m)
lose-IsLoading sha id m l e = record {
  kept = record {
    settings = l.kept.settings;
    consistent = record {
      distinct = l.kept.consistent.distinct;
      named = l.kept.consistent.named;
      counted = l.kept.consistent.counted;
    };
    within = l.kept.within;
    stored = λ i a f.
        let (b, g, n, d) = l.kept.stored i a f in
        elim (Bool-cases (same id i)) [
          | inl here ↦
              absurd
                (ground (arith, f, subst (λ k. lookup k m.artifacts ≡ none) (same_eq id i here) e))
          | inr other ↦ (b, ground (arith, lookup-delete id i m.disk, g, other), n, d)
        ];
    holds = record { counted = l.kept.holds.counted; opened = l.kept.holds.opened };
  };
  jobs = l.jobs;
}

pub enter-IsLoading :
    (sha : List ℕ → String) (now : ℕ) (id : String) (b : List ℕ) (modified : ℕ) (m : Manager)
    → IsLoading sha m
    → same id "" ≡ false
    → lookup id m.artifacts ≡ none
    → lookup id m.disk ≡ some b
    → is_refused now m (length b) modified ≡ false
    → IsLoading sha (enter id (loaded sha b modified) m)
unfolding ◌+ℤ◌ count
enter-IsLoading sha now id b modified m l n e d r =
    let a = loaded sha b modified in
    record {
      kept = record {
        settings = l.kept.settings;
        consistent = record {
          distinct = insert-Distinct id a m.artifacts l.kept.consistent.distinct;
          named = ground (arith, lookup-insert id "" a m.artifacts, l.kept.consistent.named, n);
          counted =
              ground (arith, sum_of-insert size_of id a m.artifacts, l.kept.consistent.counted, e);
        };
        within = ground (
          arith,
          r,
          l.kept.consistent.counted,
          length-sum_of m.artifacts,
          length-sum_of (insert id a m.artifacts),
          sum_of-insert (λ _. 1) id a m.artifacts,
        );
        stored = λ i x f. elim (Bool-cases (same id i)) [
          | inl here ↦ (
            b,
            subst (λ k. lookup k m.disk ≡ some b) (same_eq id i here) d,
            ground (arith, lookup-insert id i a m.artifacts),
            ground (arith, lookup-insert id i a m.artifacts),
          )
          | inr other ↦ l.kept.stored i x (ground (arith, lookup-insert id i a m.artifacts))
        ];
        holds = record {
          counted = λ i. ground (arith, lookup-insert id i a m.artifacts, l.kept.holds.counted i);
          opened = l.kept.holds.opened;
        };
      };
      jobs = l.jobs;
    }
