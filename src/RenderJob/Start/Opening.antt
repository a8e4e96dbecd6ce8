-- ===== src/RenderJob/Start/Opening.antt =====
-- `reconcile`: its rounds and its loop.
use go_graphics.Common.{
  refl, [], ◌∷◌, String, List, ℕ, ◌≢◌, same, ◌==◌, ◌≡◌, arith, false, true, subst, Bool-cases, ◌∙◌,
  inl, length, ap, some, sym, same_eq, Option-cases, inr,
}
use go_graphics.RenderJob.Start.{
  reconcile, load_entry, load_image, len, Manager, Result, Artifact, lose, enter, FileEntry, Error,
  ok, err, stem, is_refused, loaded, failure,
}
use go_graphics.RenderJob.Start.Loading.{
  HasDistinctStems, IsFreshStem, AllAhead, IsLoading, lose-IsLoading, enter-IsLoading,
}
use go_graphics.Common.Dict.{lookup-delete, lookup-insert, lookup}
use go_graphics.RenderJob.Protocol.{bind_ok, ok_inj}

-- `k` differs from `m` at one id only.
abbrev pub DiffersAt : String → Manager → Manager → Type 0
DiffersAt id m k =
    (i : String)
    → same id i ≡ false
    → (lookup i k.artifacts ≡ lookup i m.artifacts) × (lookup i k.disk ≡ lookup i m.disk)

not_same : (s t : String) → s ≢ t → same s t ≡ false
not_same s t n = elim (Bool-cases (same s t)) [ inl e ↦ absurd (n (same_eq s t e)) | inr e ↦ e ]

pub differs-AllAhead :
    (id : String) (m k : Manager) (rest : List FileEntry)
    → IsFreshStem id rest
    → DiffersAt id m k
    → AllAhead m rest
    → AllAhead k rest
differs-AllAhead id m k [] fresh d ahead = tt
differs-AllAhead id m k (f ∷ rest) (n, fresh) d (a, ahead) = (
  λ i e.
      let other : same id i ≡ false = not_same id i (λ p. n (e ∙ ap some (sym p))) in
      ((d i other).0 ∙ (a i e).0, (d i other).1 ∙ (a i e).1),
  differs-AllAhead id m k rest fresh d ahead,
)

lose-DiffersAt : (id : String) (m : Manager) → DiffersAt id m (lose id m)
lose-DiffersAt id m i n = (refl, ground (arith, lookup-delete id i m.disk))

enter-DiffersAt : (id : String) (a : Artifact) (m : Manager) → DiffersAt id m (enter id a m)
enter-DiffersAt id a m i n = (ground (arith, lookup-insert id i a m.artifacts), refl)

image_cases {ℓ} :
    (P : Result Manager → Type ℓ) (sha : List ℕ → String) (now : ℕ) (id : String) (e : FileEntry)
    (m : Manager)
    → ((x : Error) → P (err x))
    → P (ok m)
    → P (ok (lose id m))
    → ((modified : ℕ)
        → is_refused now m (length e.content) modified ≡ false
        → P (ok (enter id (loaded sha e.content modified) m)))
    → P (load_image sha now id e m)
unfolding load_image
image_cases P sha now id e m failed kept lost entered = elim (Option-cases e.info) [
  | inl gone ↦ rw (gone, load_image) (failed (failure "info"))
  | inr ((regular, modified), i) ↦
      elim (Bool-cases (is_refused now m (length e.content) modified)) [
        | inl out ↦ ground (arith, i, out, kept, lost, failed (failure "remove"))
        | inr in_ ↦ ground (arith, i, in_, kept, entered modified in_, failed (failure "read"))
      ]
]

-- What one round of the loop may make of the state.
entry_cases {ℓ} :
    (P : Result Manager → Type ℓ) (sha : List ℕ → String) (now : ℕ) (e : FileEntry) (m : Manager)
    → ((x : Error) → P (err x))
    → P (ok m)
    → ((id : String) → stem e.name ≡ some id → P (ok (lose id m)))
    → ((id : String)
        → stem e.name ≡ some id
        → (len id == 64) ≡ true
        → P (load_image sha now id e m))
    → P (load_entry sha now e m)
unfolding load_entry
entry_cases P sha now e m failed kept lost image = elim (Option-cases (stem e.name)) [
  | inl gone ↦ ground (arith, gone, kept, failed (failure "remove"))
  | inr (id, i) ↦ elim (Bool-cases (len id == 64)) [
    | inl long ↦
        ground (arith, i, long, kept, lost id i, image id i long, failed (failure "remove"))
    | inr short ↦ ground (arith, i, short, kept, lost id i, failed (failure "remove"))
  ]
]

long_named : (id : String) → (len id == 64) ≡ true → same id "" ≡ false
long_named id e = not_same id "" (λ p. ground (arith, subst (λ s. (len s == 64) ≡ true) p e))

abbrev Loads : (List ℕ → String) → List FileEntry → Result Manager → Type 0
Loads sha rest r = (k : Manager) → r ≡ ok k → IsLoading sha k × AllAhead k rest

load_entry-Loads :
    (sha : List ℕ → String) (now : ℕ) (e : FileEntry) (rest : List FileEntry) (m : Manager)
    → HasDistinctStems (e ∷ rest)
    → IsLoading sha m
    → AllAhead m (e ∷ rest)
    → Loads sha rest (load_entry sha now e m)
load_entry-Loads sha now e rest m (fresh, _) l (a, ahead) =
    entry_cases (Loads sha rest) sha now e m failed kept lost λ id i long.
      image_cases (Loads sha rest) sha now id e m failed kept (lost id i) λ modified r.
        let x = loaded sha e.content modified in
        on_ok (enter id x m)
          (enter-IsLoading sha now id e.content modified m l (long_named id long) (a id i).0
            (a id i).1 r)
          (differs-AllAhead id m (enter id x m) rest (fresh id i) (enter-DiffersAt id x m) ahead)
  where
    on_ok : (k : Manager) → IsLoading sha k → AllAhead k rest → Loads sha rest (ok k)
    on_ok k p q n h =
        let c = ok_inj h in (subst (IsLoading sha) c p, subst (λ x. AllAhead x rest) c q)

    failed : (x : Error) → Loads sha rest (err x)
    failed x k h = absurd (ground arith)

    kept : Loads sha rest (ok m)
    kept = on_ok m l ahead

    lost : (id : String) → stem e.name ≡ some id → Loads sha rest (ok (lose id m))
    lost id i =
        on_ok (lose id m) (lose-IsLoading sha id m l (a id i).0)
          (differs-AllAhead id m (lose id m) rest (fresh id i) (lose-DiffersAt id m) ahead)

pub reconcile-IsLoading :
    (sha : List ℕ → String) (now : ℕ) (entries : List FileEntry) (m k : Manager)
    → HasDistinctStems entries
    → IsLoading sha m
    → AllAhead m entries
    → reconcile sha now entries m ≡ ok k
    → IsLoading sha k
unfolding reconcile
reconcile-IsLoading sha now [] m k d l a e = subst (IsLoading sha) (ok_inj e) l
reconcile-IsLoading sha now (f ∷ rest) m k d l a e =
    let (n, g, h) = bind_ok (load_entry sha now f m) _ k e in
    let (l', a') = load_entry-Loads sha now f rest m d l a n g in
    reconcile-IsLoading sha now rest n k d.1 l' a' h
