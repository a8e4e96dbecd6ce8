-- ===== src/RenderJob/Worker/Scan.antt =====
-- The scan of the queue.
use go_graphics.Common.{
  ℕ, ◌+◌, ◌≡◌, refl, String, Bool, true, false, ◌⊎◌, inl, inr, Option, none, some, List, [], ◌∷◌,
  arith, same, Bool-cases,
}
use go_graphics.Common.Dict.{lookup}
use go_graphics.RenderJob.Model.{Manager, Job, expired, is_queued, older, minute}
use go_graphics.RenderJob.Worker.{
  skipped, stale, fit, candidate, first_index, scan, set_job, with_state,
}

-- The job of that id is queued and not too old at the time `now`.
abbrev pub IsFit : ℕ → Manager → String → Job → Type 0
IsFit now m id j = (lookup id m.jobs ≡ some j) × (candidate now (some j) ≡ fit j)

abbrev pub IsIdle : Option Job → Type 0
IsIdle o = (j : Job) → o ≡ some j → is_queued j.state ≡ false

-- The three ways of a round.
abbrev Look : ℕ → Option Job → Type 0
Look now o =
    ((candidate now o ≡ skipped) × IsIdle o)
    ⊎ (((j : Job) × (o ≡ some j) × (is_queued j.state ≡ true) × (candidate now o ≡ stale j))
        ⊎ ((j : Job) × (o ≡ some j) × (is_queued j.state ≡ true) × (candidate now o ≡ fit j)))

Look-job :
    (now : ℕ) (j : Job) (q old : Bool)
    → is_queued j.state ≡ q
    → older now j.created minute ≡ old
    → Look now (some j)
unfolding candidate
Look-job now j false old e f = inl (rw (e, candidate), λ k h. ground arith)
Look-job now j true true e f = inr (inl (j, refl, e, rw (e, f, candidate)))
Look-job now j true false e f = inr (inr (j, refl, e, rw (e, f, candidate)))

pub look : (now : ℕ) (o : Option Job) → Look now o
unfolding candidate
look now none = inl (refl, λ j e. cc)
look now (some j) = Look-job now j _ _ refl refl

module _ (now : ℕ) (m : Manager) (id : String) (rest : List String) (i : ℕ) (index : Option ℕ) where
  pub scan_skipped :
      candidate now (lookup id m.jobs) ≡ skipped
      → scan now m (id ∷ rest) i index ≡ scan now m rest (i + 1) index
  unfolding scan
  scan_skipped e = rw (e, scan)

  pub scan_stale :
      (j : Job)
      → candidate now (lookup id m.jobs) ≡ stale j
      → scan now m (id ∷ rest) i index
        ≡ scan now (set_job id (with_state expired j) m) rest (i + 1) index
  unfolding scan
  scan_stale j e = rw (e, scan)

  pub scan_other :
      (j : Job)
      → candidate now (lookup id m.jobs) ≡ fit j
      → same j.owner m.last ≡ false
      → scan now m (id ∷ rest) i index ≡ (m, some i)
  unfolding scan
  scan_other j e o = ground arith

  pub scan_again :
      (j : Job)
      → candidate now (lookup id m.jobs) ≡ fit j
      → same j.owner m.last ≡ true
      → scan now m (id ∷ rest) i index ≡ scan now m rest (i + 1) (first_index index i)
  unfolding scan
  scan_again j e o = ground arith

-- A property that the expiry of a queued job keeps, the scan keeps.
pub scan-keeps {ℓ} :
    (P : Manager → Type ℓ) (now : ℕ)
    → ((m : Manager) (id : String) (j : Job)
        → lookup id m.jobs ≡ some j
        → is_queued j.state ≡ true
        → candidate now (lookup id m.jobs) ≡ stale j
        → P m
        → P (set_job id (with_state expired j) m))
    → (m : Manager) (l : List String) (i : ℕ) (index : Option ℕ) → P m
    → P (scan now m l i index).0
scan-keeps P now keep m [] i index p = unfold scan in p
scan-keeps P now keep m (id ∷ rest) i index p = elim (look now (lookup id m.jobs)) [
  | inl (e, _) ↦
      rw (scan_skipped now m id rest i index e) (scan-keeps P now keep m rest (i + 1) index p)
  | inr (inl (j, o, q, e)) ↦ rw (scan_stale now m id rest i index j e) (
      scan-keeps P now keep (set_job id (with_state expired j) m) rest (i + 1) index
        (keep m id j o q e p))
  | inr (inr (j, o, q, e)) ↦ elim (Bool-cases (same j.owner m.last)) [
    | inl again ↦
        rw (scan_again now m id rest i index j e again)
          (scan-keeps P now keep m rest (i + 1) (first_index index i) p)
    | inr other ↦ rw (scan_other now m id rest i index j e other) p
  ]
]
