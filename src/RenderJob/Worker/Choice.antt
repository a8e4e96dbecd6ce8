-- ===== src/RenderJob/Worker/Choice.antt =====
-- Which job the scan picks.
use go_graphics.Common.{
  ℕ, suc, ◌+◌, ◌≡◌, refl, subst, String, ◌⊎◌, inl, inr, Option, none, some, List, [], ◌∷◌, arith,
  same, Bool-cases,
}
use go_graphics.Common.Dict.{lookup, lookup-insert}
use go_graphics.RenderJob.Model.{Manager, Job, expired}
use go_graphics.RenderJob.Worker.{
  stale, fit, candidate, first_index, scan, set_job, with_state, get_elem?,
}
use go_graphics.RenderJob.Worker.Scan.{
  IsFit, look, scan_skipped, scan_stale, scan_other, scan_again,
}

abbrev pub expire_at : String → Job → Manager → Manager
expire_at id j m = set_job id (with_state expired j) m

-- The scan of `l` from position `i` has found position `i + n`, where an unexpired queued job stands.
pub record Finds (now : ℕ) (m : Manager) (l : List String) (i : ℕ) (r : Option ℕ) : Type 0 where
  pub n : ℕ
  pub id : String
  pub job : Job
  pub place : get_elem? l n ≡ some id
  pub fits : IsFit now m id job
  pub result : r ≡ some (i + n)

-- Expiring a job that is too old leaves every other fit job as it is.
pub IsFit-before :
    (now : ℕ) (m : Manager) (id j' : String) (j x : Job)
    → lookup id m.jobs ≡ some j
    → candidate now (lookup id m.jobs) ≡ stale j
    → IsFit now (expire_at id j m) j' x
    → IsFit now m j' x
unfolding candidate
IsFit-before now m id j' j x e c (f, g) =
    (ground (arith, lookup-insert id j' (with_state expired j) m.jobs), g)

pub IsFit-after :
    (now : ℕ) (m : Manager) (id j' : String) (j x : Job)
    → candidate now (lookup id m.jobs) ≡ stale j
    → IsFit now m j' x
    → IsFit now (expire_at id j m) j' x
IsFit-after now m id j' j x c (f, g) = elim (Bool-cases (same id j')) [
  | inl here ↦ absurd (ground arith)
  | inr there ↦ (ground (arith, lookup-insert id j' (with_state expired j) m.jobs), g)
]

abbrev pub later :
    (now : ℕ) (m : Manager) (id : String) (l : List String) (i : ℕ) (r : Option ℕ)
    → Finds now m l (i + 1) r
    → Finds now m (id ∷ l) i r
later now m id l i r f = record {
  n = suc f.n;
  id = f.id;
  job = f.job;
  place = f.place;
  fits = f.fits;
  result = ground (arith, f.result);
}

abbrev pub earlier :
    (now : ℕ) (m : Manager) (id : String) (j : Job) (l : List String) (i : ℕ) (r : Option ℕ)
    → lookup id m.jobs ≡ some j
    → candidate now (lookup id m.jobs) ≡ stale j
    → Finds now (expire_at id j m) l i r
    → Finds now m l i r
earlier now m id j l i r e c f = record {
  n = f.n;
  id = f.id;
  job = f.job;
  place = f.place;
  fits = IsFit-before now m id f.id j f.job e c f.fits;
  result = f.result;
}

-- The scan's answer is what it started from, or a position that it found.
pub scan-Finds :
    (now : ℕ) (m : Manager) (l : List String) (i : ℕ) (index : Option ℕ)
    → ((scan now m l i index).1 ≡ index) ⊎ Finds now m l i (scan now m l i index).1
scan-Finds now m [] i index = inl (unfold scan in refl)
scan-Finds now m (id ∷ rest) i index = elim (look now (lookup id m.jobs)) [
  | inl (e, _) ↦
      rw (scan_skipped now m id rest i index e) (on_rest (scan-Finds now m rest (i + 1) index))
  | inr (inl (j, o, q, e)) ↦
      rw (scan_stale now m id rest i index j e)
        (on_stale j o e (scan-Finds now (expire_at id j m) rest (i + 1) index))
  | inr (inr (j, o, q, e)) ↦ elim (Bool-cases (same j.owner m.last)) [
    | inl again ↦
        rw (scan_again now m id rest i index j e again)
          (on_again j o e index (scan-Finds now m rest (i + 1) (first_index index i)))
    | inr other ↦ rw (scan_other now m id rest i index j e other) (inr (here j o e refl))
  ]
]
  where
    here :
        {r : Option ℕ} (j : Job)
        → lookup id m.jobs ≡ some j
        → candidate now (lookup id m.jobs) ≡ fit j
        → r ≡ some i
        → Finds now m (id ∷ rest) i r
    here j o e f = record {
      n = 0;
      id = id;
      job = j;
      place = refl;
      fits = (o, subst (λ x. candidate now x ≡ fit j) o e);
      result = ground (arith, f);
    }

    on_rest :
        {r : Option ℕ}
        → (r ≡ index) ⊎ Finds now m rest (i + 1) r
        → (r ≡ index) ⊎ Finds now m (id ∷ rest) i r
    on_rest (inl e) = inl e
    on_rest {r} (inr f) = inr (later now m id rest i r f)

    on_stale :
        {r : Option ℕ} (j : Job)
        → lookup id m.jobs ≡ some j
        → candidate now (lookup id m.jobs) ≡ stale j
        → (r ≡ index) ⊎ Finds now (expire_at id j m) rest (i + 1) r
        → (r ≡ index) ⊎ Finds now m (id ∷ rest) i r
    on_stale j o c (inl e) = inl e
    on_stale {r} j o c (inr f) =
        inr (later now m id rest i r (earlier now m id j rest (i + 1) r o c f))

    on_again :
        {r : Option ℕ} (j : Job)
        → lookup id m.jobs ≡ some j
        → candidate now (lookup id m.jobs) ≡ fit j
        → (x : Option ℕ) → (r ≡ first_index x i) ⊎ Finds now m rest (i + 1) r
        → (r ≡ x) ⊎ Finds now m (id ∷ rest) i r
    on_again j o c none (inl e) = inr (here j o c e)
    on_again j o c (some k) (inl e) = inl e
    on_again {r} j o c x (inr f) = inr (later now m id rest i r f)
