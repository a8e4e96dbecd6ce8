-- ===== src/RenderJob/Admission/Batch.antt =====
-- A whole batch: if the first loop refuses nothing, the second enrolls every id, and adds no more than
-- was counted.
use go_graphics.Common.{
  ℕ, ◌+◌, ◌≡◌, ◌≢◌, refl, String, Bool, true, none, some, List, [], ◌∷◌, length, arith, All, ◌⊎◌,
  inl, inr, sym, ◌∙◌, subst,
}
use go_graphics.Common.Dict.{lookup}
use go_graphics.RenderJob.Model.{Manager, Request}
use go_graphics.RenderJob.Admission.{
  Verdict, refuses, joins, shares, reuses, creates, verdict, is_cached, survey, enroll, ids_of,
}
use go_graphics.RenderJob.Admission.Progress.{Touched, Progress}
use go_graphics.RenderJob.Admission.Rounds.{fresh_after, added_after, Round, round}

survey-cons :
    (m : Manager) (owner id : String) (ids fresh added : List String) (v : Verdict)
    → verdict owner (lookup id m.jobs) (is_cached id m) ≡ v
    → v ≢ refuses
    → survey m owner (id ∷ ids) fresh added
      ≡ survey m owner ids (fresh_after v id fresh) (added_after v id added)
unfolding survey
survey-cons m owner id ids fresh added refuses e n = absurd (n refl)
survey-cons m owner id ids fresh added joins e n = rw (e, survey)
survey-cons m owner id ids fresh added shares e n = rw (e, survey)
survey-cons m owner id ids fresh added reuses e n = rw (e, survey)
survey-cons m owner id ids fresh added creates e n = rw (e, survey)

survey-refuses :
    (m : Manager) (owner id : String) (ids fresh added : List String)
    → verdict owner (lookup id m.jobs) (is_cached id m) ≡ refuses
    → survey m owner (id ∷ ids) fresh added ≡ none
unfolding survey
survey-refuses m owner id ids fresh added e = rw (e, survey)

enroll-cons :
    (k : Manager) (now : ℕ) (owner id : String) (q : Request) (rest : List (String × Request))
    → (Round k now owner id q).1 ≡ true
    → enroll k now owner ((id, q) ∷ rest) ≡ enroll (Round k now owner id q).0 now owner rest
unfolding enroll
enroll-cons k now owner id q rest e = rw (e, enroll)

verdict_cases : (v : Verdict) → (v ≡ refuses) ⊎ (v ≢ refuses)
verdict_cases refuses = inl refl
verdict_cases joins = inr (λ e. cc)
verdict_cases shares = inr (λ e. cc)
verdict_cases reuses = inr (λ e. cc)
verdict_cases creates = inr (λ e. cc)

-- The batch is enrolled: `r` is the state and the answer, `n` the ids counted so far.
abbrev pub IsEnrolled :
    String
    → Manager
    → Manager
    → ℕ
    → List String
    → List String × List String
    → Manager × Bool
    → Type 0
IsEnrolled owner m k n ids sets r =
    (r.1 ≡ true)
    × Progress owner m n sets.0 sets.1 r.0
    × ((j : String) → Touched owner k j → Touched owner r.0 j)
    × All (Touched owner r.0) ids

survey-nil :
    (m : Manager) (owner : String) (fresh added : List String) (sets : List String × List String)
    → survey m owner [] fresh added ≡ some sets
    → (fresh ≡ sets.0) × (added ≡ sets.1)
unfolding survey
survey-nil m owner fresh added sets e = (cc, cc)

pub survey-enroll :
    (owner : String) (m k : Manager) (now : ℕ) (batch : List (String × Request)) (n : ℕ)
    (fresh added : List String) (sets : List String × List String)
    → survey m owner (ids_of batch) fresh added ≡ some sets
    → Progress owner m n fresh added k
    → (n' : ℕ) × (n' ≡ n + length batch)
      × IsEnrolled owner m k n' (ids_of batch) sets (enroll k now owner batch)
survey-enroll owner m k now [] n fresh added sets e p =
    let (f, a) = survey-nil m owner fresh added sets e in
    (n, omega arith, unfold enroll in (refl, rw (← f, ← a) p, λ j t. t, tt))
survey-enroll owner m k now ((id, q) ∷ rest) n fresh added sets e p =
    let v = verdict owner (lookup id m.jobs) (is_cached id m) in
    elim (verdict_cases v) [
      | inl refused ↦
          absurd (ground (arith, e, survey-refuses m owner id (ids_of rest) fresh added refused))
      | inr fine ↦
          let r = round owner m k now id q n fresh added p v refl fine in
          let k' = (Round k now owner id q).0 in
          let (n', c, (enrolled, p', kept, all)) =
            survey-enroll owner m k' now rest (n + 1) (fresh_after v id fresh)
              (added_after v id added) sets
              (sym (survey-cons m owner id (ids_of rest) fresh added v refl fine) ∙ e) r.1 in
          (
            n',
            omega arith,
            subst (IsEnrolled owner m k n' (id ∷ ids_of rest) sets)
                (sym (enroll-cons k now owner id q rest r.0))
                (enrolled, p', λ j t. kept j (r.3 j t), (kept id r.2, all)),
          )
    ]
