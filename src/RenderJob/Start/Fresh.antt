-- ===== src/RenderJob/Start/Fresh.antt =====
-- `New`: its check of the settings, and the state that it returns.
use go_graphics.Common.{
  ◌||◌, refl, [], ◌∷◌, ◌≤◌, ◌≡◌, List, String, false, ℕ, some, arith, none, Option-cases, inl,
  subst, inr, sym, Bool-cases, not, same, ◌∙◌, some_inj,
}
use go_graphics.RenderJob.Start.{
  check_settings, new, Settings, images, is_invalid, FileEntry, pos_part, blank, stem,
  with_defaults,
}
use go_graphics.RenderJob.Model.{Config, max_image, ok, Manager, Job}
use go_graphics.Common.Dict.{lookup, Dict, insert, lookup-insert, lookup-insert_self}
use go_graphics.RenderJob.Leases.Counting.{count}
use go_graphics.RenderJob.Start.Loading.{HasDistinctStems, IsLoading, AllAhead}
use go_graphics.RenderJob.Start.Opening.{DiffersAt, reconcile-IsLoading, differs-AllAhead}
use go_graphics.RenderJob.System.{Inv}
use go_graphics.RenderJob.Protocol.{bind_ok, ok_inj}

-- Within the capacities that `New` promises.
pub record IsModest (g : Config) : Type 0 where
  pub queue_some : 1 ≤ g.queue
  pub queue_few : g.queue ≤ 8
  pub count_some : 1 ≤ g.cache_count
  pub count_few : g.cache_count ≤ 5000
  pub bytes_some : max_image ≤ g.cache_bytes

IsModest-of :
    (d : Settings)
    → is_invalid d ≡ false
    → IsModest (record {
      build = d.build;
      queue = pos_part d.queue;
      cache_bytes = pos_part d.cache_bytes;
      cache_count = pos_part d.cache_count;
      max_age = pos_part d.max_age;
    })
IsModest-of d e = record {
  queue_some = ground (arith, e);
  queue_few = ground (arith, e);
  count_some = ground (arith, e);
  count_few = ground (arith, e);
  bytes_some = ground (arith, e);
}

check_settings_accepts :
    (c : Settings)
    → (not c.renderer || same c.build "" || same c.directory "") ≡ false
    → is_invalid (with_defaults c) ≡ false
    → let d = with_defaults c in
      check_settings c
      ≡ ok (record {
        build = d.build;
        queue = pos_part d.queue;
        cache_bytes = pos_part d.cache_bytes;
        cache_count = pos_part d.cache_count;
        max_age = pos_part d.max_age;
      })
unfolding check_settings with_defaults
check_settings_accepts c e f = rw (e, f) refl

-- The settings that `New` accepts give, with the defaults filled in, a queue of one to eight jobs
-- and a cache of one to 5000 files that can hold an image of the largest size.
pub check_settings-IsModest : (c : Settings) (g : Config) → check_settings c ≡ ok g → IsModest g
unfolding check_settings
check_settings-IsModest c g e =
    elim (Bool-cases (not c.renderer || same c.build "" || same c.directory "")) [
      | inl missing ↦ absurd (ground (arith, missing, e))
      | inr there ↦ elim (Bool-cases (is_invalid (with_defaults c))) [
        | inl wrong ↦ absurd (ground (arith, there, wrong, e))
        | inr valid ↦
            subst IsModest (ok_inj (sym (check_settings_accepts c there valid) ∙ e))
              (IsModest-of (with_defaults c) valid)
      ]
    ]

images-DiffersAt :
    (g : Config) (id : String) (b : List ℕ) (d : Dict (List ℕ))
    → DiffersAt id (blank g d) (blank g (insert id b d))
images-DiffersAt g id b d i n = (refl, ground (arith, lookup-insert id i b d))

images_skip :
    (e : FileEntry) (rest : List FileEntry) → stem e.name ≡ none → images (e ∷ rest) ≡ images rest
unfolding images
images_skip e rest s = rw (s, images) refl

images_take :
    (e : FileEntry) (rest : List FileEntry) (id : String)
    → stem e.name ≡ some id
    → images (e ∷ rest) ≡ insert id e.content (images rest)
unfolding images
images_take e rest id s = rw (s, images) refl

images-AllAhead :
    (g : Config) (entries : List FileEntry)
    → HasDistinctStems entries
    → AllAhead (blank g (images entries)) entries
unfolding lookup
images-AllAhead g [] d = tt
images-AllAhead g (e ∷ rest) d = elim (Option-cases (stem e.name)) [
  | inl gone ↦ (
    λ i t. absurd (ground (arith, gone, t)),
    subst (λ k. AllAhead (blank g k) rest) (sym (images_skip e rest gone))
        (images-AllAhead g rest d.1),
  )
  | inr (id, s) ↦ (
    λ i t. (
      refl,
      subst (λ k. lookup i k ≡ some e.content) (sym (images_take e rest id s))
          (subst (λ j. lookup j (insert id e.content (images rest)) ≡ some e.content)
            (some_inj (sym s ∙ t)) (lookup-insert_self id e.content (images rest))),
    ),
    subst (λ k. AllAhead (blank g k) rest) (sym (images_take e rest id s))
        (differs-AllAhead id (blank g (images rest)) (blank g (insert id e.content (images rest)))
          rest (d.0 id s) (images-DiffersAt g id e.content (images rest))
          (images-AllAhead g rest d.1)),
  )
]

blank-IsLoading :
    (sha : List ℕ → String) (g : Config) (disk : Dict (List ℕ))
    → 1 ≤ g.cache_count
    → IsLoading sha (blank g disk)
unfolding lookup count
blank-IsLoading sha g disk h = record {
  kept = record {
    settings = omega (arith, h);
    consistent = record { distinct = tt; named = refl; counted = refl };
    within = (ground arith, omega arith);
    stored = λ i a e. absurd (ground arith);
    holds = record { counted = λ i. (refl, λ h. absurd (ground arith)); opened = refl };
  };
  jobs = refl;
}

loaded-Inv :
    (sha : List ℕ → String) (m : Manager)
    → IsLoading sha m
    → Inv sha (record { manager = m; run = none; held = [] })
unfolding lookup
loaded-Inv sha m l = record {
  kept = l.kept;
  sound = record {
    distinct = rw l.jobs tt;
    uncached = λ i j e. absurd (nobody i j e);
    few = λ i j e. absurd (nobody i j e);
    waiting = λ i j e. absurd (nobody i j e);
    allocated = λ i j e. absurd (nobody i j e);
  };
  bounded = record {
    queued = rw l.jobs (omega arith);
    owned = λ o. rw l.jobs (omega arith);
    jobs = rw l.jobs (omega arith);
  };
  served = record {
    distinct = rw l.jobs tt;
    named = rw l.jobs refl;
    runs = λ i j e. absurd (nobody i j e);
  };
}
  where
    nobody : (i : String) (j : Job) → lookup i m.jobs ≡ some j → ⊥
    nobody i j e = ground (arith, subst (λ d. lookup i d ≡ some j) l.jobs e)

-- If `New` returns a manager, its state has the invariant of the system, whatever the directory
-- holds, as long as no two of its entries have one name in front of `.png`.
pub new-Inv :
    (sha : List ℕ → String) (now : ℕ) (entries : List FileEntry) (c : Settings) (m : Manager)
    → HasDistinctStems entries
    → new sha now (some entries) c ≡ ok m
    → Inv sha (record { manager = m; run = none; held = [] })
unfolding new
new-Inv sha now entries c m d e =
    let (g, h, r) = bind_ok (check_settings c) _ m e in
    loaded-Inv sha m (
      reconcile-IsLoading sha now entries (blank g (images entries)) m d
        (blank-IsLoading sha g (images entries) (check_settings-IsModest c g h).count_some)
        (images-AllAhead g entries d) r)
