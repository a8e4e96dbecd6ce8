-- ===== src/RenderJob/Sound/Serving.antt =====
-- The running job under `Admit` and the worker's first section.
use go_graphics.RenderJob.Admission.{refuse, create, join, joined}
use go_graphics.Common.{
  refl, [], ◌∷◌, Option, List, ℕ, String, All, ◌≡◌, same, none, false, some, Bool-cases, arith, inl,
  inr, subst,
}
use go_graphics.RenderJob.Admission.{
  tidy_queue, enroll, identify, apply_entry, add_job, admit, ids_of, identify_all, Entry, place,
  entry, is_cached, new_job, join, joined,
}
use go_graphics.RenderJob.Protocol.{Publisher, Recipe, Rendition, bind_ok, validate_request, ok_inj}
use go_graphics.RenderJob.Worker.{start_job, Run, scan, begin, with_state, started}
use go_graphics.RenderJob.Model.{Manager, Host, Request, Job, ok, expired}
use go_graphics.RenderJob.Sound.Running.{
  IsServed, change-IsServed, prune-IsServed, set_job-IsServed, there_named,
}
use go_graphics.RenderJob.Sound.Enrollment.{admit_cases, entry_join}
use go_graphics.RenderJob.Sound.Placement.{place_cases}
use go_graphics.Common.Dict.{lookup}
use go_graphics.RenderJob.Worker.Scan.{scan-keeps}
use go_graphics.RenderJob.Worker.Begin.{begin_cases, scan-IsFit}

-- `Recipe.Key` is the hexadecimal text of a SHA-256 digest, so it is never empty.
abbrev pub HasKeys : Publisher → Type 0
HasKeys p = (r : Recipe) (t : Rendition) (build : String) → same (p.key r t build) "" ≡ false

abbrev AllNamed : List String → Type 0
AllNamed ids = All (λ id. same id "" ≡ false) ids

identify_named :
    (p : Publisher) (build : String) (q : Request) (id : String)
    → HasKeys p
    → identify p build q ≡ ok id
    → same id "" ≡ false
unfolding identify
identify_named p build q id keys e =
    let (_, _, e1) = bind_ok (validate_request p build q) _ id e in
    let (r, _, e2) = bind_ok (p.validate q.recipe) _ id e1 in
    let (t, _, e3) = bind_ok (p.tier r.id q.tier) _ id e2 in ground (arith, e3, keys r t build)

identify_all_named :
    (p : Publisher) (build : String) (qs : List Request) (batch : List (String × Request))
    → HasKeys p
    → identify_all p build qs ≡ ok batch
    → AllNamed (ids_of batch)
unfolding identify_all
identify_all_named p build [] batch keys e = subst (λ b. AllNamed (ids_of b)) (ok_inj e) tt
identify_all_named p build (q ∷ qs) batch keys e =
    let (id, e1, e2) = bind_ok (identify p build q) _ batch e in
    let (rest, e3, e4) = bind_ok (identify_all p build qs) _ batch e2 in
    subst (λ b. AllNamed (ids_of b)) (ok_inj e4)
      (identify_named p build q id keys e1, identify_all_named p build qs rest keys e3)

apply_entry-IsServed :
    (run : Option Run) (m : Manager) (now : ℕ) (owner id : String) (q : Request) (t : Entry)
    → entry owner (lookup id m.jobs) (is_cached id m) ≡ t
    → same id "" ≡ false
    → IsServed run m
    → IsServed run (apply_entry m now owner id q t).0
unfolding apply_entry add_job
apply_entry-IsServed run m now owner id q refuse e n s = s
apply_entry-IsServed run m now owner id q create e n s =
    let c =
      set_job-IsServed run id (new_job m now owner (is_cached id m) q) m s n
        (λ f. absurd (ground arith)) in
    record { distinct = c.distinct; named = c.named; runs = c.runs }
apply_entry-IsServed run m now owner id q (join j) e n s =
    change-IsServed run id j (joined owner j) m s (entry_join owner m id j e).0 (λ f. (f, refl))

enroll-IsServed :
    (run : Option Run) (m : Manager) (now : ℕ) (owner : String) (batch : List (String × Request))
    → AllNamed (ids_of batch)
    → IsServed run m
    → IsServed run (enroll m now owner batch).0
unfolding enroll
enroll-IsServed run m now owner [] n s = s
enroll-IsServed run m now owner ((id, q) ∷ rest) (n, ns) s =
    let t = entry owner (lookup id m.jobs) (is_cached id m) in
    let s' = apply_entry-IsServed run m now owner id q t refl n s in
    elim (Bool-cases (apply_entry m now owner id q t).1) [
      | inl fine ↦
          rw (fine, enroll)
            (enroll-IsServed run (apply_entry m now owner id q t).0 now owner rest ns s')
      | inr full ↦ rw (full, enroll) s'
    ]

tidy_queue-IsServed :
    (run : Option Run) (m : Manager) → IsServed run m → IsServed run (tidy_queue m)
unfolding tidy_queue
tidy_queue-IsServed run m s = record { distinct = s.distinct; named = s.named; runs = s.runs }

place-IsServed :
    (run : Option Run) (m : Manager) (now : ℕ) (owner : String) (batch : List (String × Request))
    → AllNamed (ids_of batch)
    → IsServed run m
    → IsServed run (place m now owner batch).0
place-IsServed run m now owner batch n s =
    let c = enroll-IsServed run m now owner batch n s in
    place_cases (IsServed run) m now owner batch s c
      (record { distinct = c.distinct; named = c.named; runs = c.runs })

pub admit-IsServed :
    (run : Option Run) (p : Publisher) (host : Host) (now : ℕ) (m : Manager) (owner : String)
    (qs : List Request)
    → HasKeys p
    → IsServed run m
    → IsServed run (admit p host now m owner qs).0
admit-IsServed run p host now m owner qs keys s =
    admit_cases (IsServed run) p host now m owner qs s λ batch e.
      place-IsServed run _ now owner batch (identify_all_named p m.cfg.build qs batch keys e)
        (tidy_queue-IsServed run _ (prune-IsServed run host now m s))

scan-IsServed :
    (run : Option Run) (now : ℕ) (m : Manager) (l : List String) (i : ℕ) (index : Option ℕ)
    → IsServed run m
    → IsServed run (scan now m l i index).0
scan-IsServed run now = scan-keeps (IsServed run) now λ k id j o q c s.
    change-IsServed run id j (with_state expired j) k s o (λ f. absurd (ground arith))

start_job-IsServed :
    (id : String) (i : ℕ) (j : Job) (m : Manager)
    → IsServed none m
    → lookup id m.jobs ≡ some j
    → IsServed (start_job id i j m).1 (start_job id i j m).0
unfolding start_job
start_job-IsServed id i j m s e =
    let run : Run = record { id = id; ref = j.ref; request = j.request; cancelled = m.closing } in
    let s' : IsServed (some run) m = record {
      distinct = s.distinct;
      named = s.named;
      runs = λ x y f g. absurd (ground (arith, (s.runs x y f g).1));
    } in
    let c =
      set_job-IsServed (some run) id (started j) m s' (there_named none id j m s e)
        (λ f. (run, refl, refl, refl)) in
    record { distinct = c.distinct; named = c.named; runs = c.runs }

pub begin-IsServed :
    (now : ℕ) (m : Manager) → IsServed none m → IsServed (begin now m).1 (begin now m).0
begin-IsServed now m s = elim (begin_cases now m) [
  | inl t ↦ rw t.outcome (
      start_job-IsServed t.id t.index t.job (scan now m m.queue 0 none).0
        (scan-IsServed none now m m.queue 0 none s)
        (scan-IsFit now m m.queue 0 none t.id t.job t.fits).0)
  | inr (o, idle) ↦
      let c = scan-IsServed none now m m.queue 0 none s in
      rw o (record { distinct = c.distinct; named = c.named; runs = c.runs })
]
