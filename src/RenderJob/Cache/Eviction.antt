-- ===== src/RenderJob/Cache/Eviction.antt =====
-- Which entry `evictOldest` takes.
use go_graphics.Common.{
  ℕ, ◌+◌, ◌≤◌, ◌≡◌, ◌≢◌, refl, sym, subst, ◌⊎◌, inl, inr, String, Bool, true, false, Option, none,
  some, [], ◌∷◌, arith, length, if◌then◌else◌, same, ltb, ◌&&◌, ◌||◌, Bool-cases,
}
use go_graphics.Common.Dict.{
  Dict, lookup, delete, Distinct, sum_of-delete, length-sum_of, lookup-delete,
}
use go_graphics.RenderJob.Model.{Manager, Host, Artifact, Error, busy, failure, is_zero}
use go_graphics.RenderJob.Cache.{remove, evict_oldest, oldest_from, removable, drop_artifact}
use go_graphics.RenderJob.Cache.Consistent.{IsConsistent}

-- `r`, created at `t`, is where the loop over `l` started from, or an unreferenced entry of `l`.
abbrev IsSource : Dict Artifact → String → ℕ → String → ℕ → Type 0
IsSource l key oldest r t =
    ((r ≡ key) × (t ≡ oldest))
    ⊎ ((a : Artifact) × (lookup r l ≡ some a) × (is_zero a.refs ≡ true) × (a.created ≡ t))

-- Nothing unreferenced in `l` is older than `t`.
abbrev IsLeast : Dict Artifact → String → ℕ → Type 0
IsLeast l r t =
    (id : String) (b : Artifact)
    → lookup id l ≡ some b
    → is_zero b.refs ≡ true
    → (r ≢ "") × (t ≤ b.created)

-- The choice of the loop over `l` that starts from `key` and `oldest`.
abbrev IsChoice : Dict Artifact → String → ℕ → String → ℕ → Type 0
IsChoice l key oldest r t =
    IsSource l key oldest r t × IsLeast l r t × (key ≢ "" → (r ≢ "") × (t ≤ oldest))

module _ (id : String) (a : Artifact) (rest : Dict Artifact) (key : String) (oldest : ℕ)
    (r : String) (t : ℕ) (fresh : lookup id rest ≡ none) where
  skip-IsSource : IsSource rest key oldest r t → IsSource ((id, a) ∷ rest) key oldest r t
  unfolding lookup
  skip-IsSource (inl e) = inl e
  skip-IsSource (inr (b, e, z, c)) = inr (b, ground arith, z, c)

  take-IsSource :
      is_zero a.refs ≡ true
      → IsSource rest id a.created r t
      → IsSource ((id, a) ∷ rest) key oldest r t
  unfolding lookup
  take-IsSource h (inl (e, f)) = inr (a, ground arith, h, ground arith)
  take-IsSource h (inr (b, e, z, c)) = inr (b, ground arith, z, c)

  skip :
      (is_zero a.refs && (same key "" || ltb a.created oldest)) ≡ false
      → IsChoice rest key oldest r t
      → IsChoice ((id, a) ∷ rest) key oldest r t
  unfolding lookup
  skip h (source, least, bound) =
      (skip-IsSource source, λ j b e z. ground (arith, least j b, bound), bound)

  take :
      id ≢ ""
      → (is_zero a.refs && (same key "" || ltb a.created oldest)) ≡ true
      → IsChoice rest id a.created r t
      → IsChoice ((id, a) ∷ rest) key oldest r t
  unfolding lookup
  take n h (source, least, bound) =
      let u = bound n in
      (
        take-IsSource (ground arith) source,
        λ j b e z. ground (arith, least j b, u),
        λ k. ground (arith, u),
      )

oldest_from-cons :
    (id : String) (a : Artifact) (rest : Dict Artifact) (key : String) (oldest : ℕ) (better : Bool)
    → (is_zero a.refs && (same key "" || ltb a.created oldest)) ≡ better
    → oldest_from ((id, a) ∷ rest) key oldest
      ≡ oldest_from rest (if better then id else key) (if better then a.created else oldest)
unfolding oldest_from
oldest_from-cons id a rest key oldest better h = rw h

absent_parts :
    (id : String) (a : Artifact) (rest : Dict Artifact)
    → lookup "" ((id, a) ∷ rest) ≡ none
    → (id ≢ "") × (lookup "" rest ≡ none)
unfolding lookup
absent_parts id a rest h = (ground arith, ground arith)

oldest_from-IsChoice :
    (l : Dict Artifact) (key : String) (oldest : ℕ)
    → Distinct l
    → lookup "" l ≡ none
    → (t : ℕ) × IsChoice l key oldest (oldest_from l key oldest) t
unfolding oldest_from lookup
oldest_from-IsChoice [] key oldest d n =
    (oldest, (inl (refl, refl), λ j b e z. cc, λ k. (k, omega arith)))
oldest_from-IsChoice ((id, a) ∷ rest) key oldest d n =
    let (n1, n2) = absent_parts id a rest n in
    elim (Bool-cases (is_zero a.refs && (same key "" || ltb a.created oldest))) [
      | inl h ↦
          let (t, c) = oldest_from-IsChoice rest id a.created d.1 n2 in
          subst (λ r. (t : ℕ) × IsChoice ((id, a) ∷ rest) key oldest r t)
            (sym (oldest_from-cons id a rest key oldest true h))
            (t, take id a rest key oldest _ t d.0 n1 h c)
      | inr h ↦
          let (t, c) = oldest_from-IsChoice rest key oldest d.1 n2 in
          subst (λ r. (t : ℕ) × IsChoice ((id, a) ∷ rest) key oldest r t)
            (sym (oldest_from-cons id a rest key oldest false h))
            (t, skip id a rest key oldest _ t d.0 h c)
    ]

-- No lease holds `a`, and nothing that no lease holds was created earlier.
abbrev pub IsOldest : Manager → String → Artifact → Type 0
IsOldest m key a =
    (lookup key m.artifacts ≡ some a)
    × (is_zero a.refs ≡ true)
    × ((id : String) (b : Artifact)
        → lookup id m.artifacts ≡ some b
        → is_zero b.refs ≡ true
        → a.created ≤ b.created)

abbrev pub AllHeld : Manager → Type 0
AllHeld m = (id : String) (b : Artifact) → lookup id m.artifacts ≡ some b → is_zero b.refs ≡ false

abbrev pub Removes : Manager → Manager → String → Type 0
Removes m n key =
    (id : String) → lookup id n.artifacts ≡ (if same key id then none else lookup id m.artifacts)

remove-unheld :
    (host : Host) (key : String) (m : Manager) (a : Artifact)
    → lookup key m.artifacts ≡ some a
    → is_zero a.refs ≡ true
    → ((removable host key m ≡ false) × (remove host key m ≡ (m, some (failure "remove"))))
      ⊎ (((remove host key m).1 ≡ none) × Removes m (remove host key m).0 key)
unfolding remove drop_artifact
remove-unheld host key m a e z = elim (Bool-cases (removable host key m)) [
  | inl ok ↦ inr (ground arith, λ id. ground (arith, lookup-delete key id m.artifacts))
  | inr no_file ↦ inl (no_file, ground arith)
]

evict_oldest-eq :
    (host : Host) (m : Manager) (key : String)
    → oldest_from m.artifacts "" 0 ≡ key
    → evict_oldest host m ≡ (if same key "" then (m, some busy) else remove host key m)
unfolding evict_oldest
evict_oldest-eq host m key e = rw e

abbrev pub EvictionOutcome : Host → Manager → Manager × Option Error → Type 0
EvictionOutcome host m r =
    (AllHeld m × (r ≡ (m, some busy)))
    ⊎ ((key : String) × (a : Artifact) × IsOldest m key a
        × (((removable host key m ≡ false) × (r ≡ (m, some (failure "remove"))))
            ⊎ ((r.1 ≡ none) × Removes m r.0 key)))

evict_choice :
    (host : Host) (m : Manager) (key : String) (t : ℕ)
    → lookup "" m.artifacts ≡ none
    → IsChoice m.artifacts "" 0 key t
    → EvictionOutcome host m (if same key "" then (m, some busy) else remove host key m)
evict_choice host m key t n (inl (e, _), least, _) =
    inl (λ id b f. ground (arith, least id b f), ground arith)
evict_choice host m key t n (inr (a, e, z, c), least, _) =
    let out = remove-unheld host key m a e z in
    let named : same key "" ≡ false = ground (arith, named_key) in
    inr (key, a, (e, z, λ id b f g. ground (arith, least id b f g)), rw named out)
  where
    named_key : key ≢ ""
    named_key k = absurd (ground (arith, k, subst (λ s. lookup s m.artifacts ≡ some a) k e))

-- If the books of the cache are consistent, `evictOldest` fails with `ErrBusy` and changes nothing
-- if leases hold every entry; otherwise it picks a least recently created entry that no lease
-- holds, and drops that one alone, or fails and changes nothing if its file cannot be removed.
pub evict_oldest_lem :
    (host : Host) (m : Manager) → IsConsistent m → EvictionOutcome host m (evict_oldest host m)
evict_oldest_lem host m c =
    let (t, choice) = oldest_from-IsChoice m.artifacts "" 0 c.distinct c.named in
    rw (evict_oldest-eq host m _ refl) (evict_choice host m _ t c.named choice)

remove-shrinks :
    (host : Host) (key : String) (m : Manager) (a : Artifact)
    → IsConsistent m
    → lookup key m.artifacts ≡ some a
    → (remove host key m).1 ≡ none
    → length (remove host key m).0.artifacts + 1 ≡ length m.artifacts
unfolding remove drop_artifact
remove-shrinks host key m a c e h = ground (
  arith,
  length-sum_of m.artifacts,
  length-sum_of (delete key m.artifacts),
  sum_of-delete (λ _. 1) key m.artifacts c.distinct,
)

-- A successful eviction drops one entry, so the loops that evict end.
pub evict_oldest-shrinks :
    (host : Host) (m : Manager)
    → IsConsistent m
    → (evict_oldest host m).1 ≡ none
    → length (evict_oldest host m).0.artifacts + 1 ≡ length m.artifacts
unfolding evict_oldest
evict_oldest-shrinks host m c =
    let (t, choice) = oldest_from-IsChoice m.artifacts "" 0 c.distinct c.named in
    from_source choice.0
  where
    key : String
    key = oldest_from m.artifacts "" 0

    from_source :
        {t : ℕ}
        → IsSource m.artifacts "" 0 key t
        → (evict_oldest host m).1 ≡ none
        → length (evict_oldest host m).0.artifacts + 1 ≡ length m.artifacts
    from_source (inl (e, _)) h = ground arith
    from_source (inr (a, e, _, _)) h = ground (arith, remove-shrinks host key m a c e)

-- An eviction that fails changes nothing.
pub evict_oldest_failed :
    (host : Host) (m : Manager) (e : Error)
    → (evict_oldest host m).1 ≡ some e
    → (evict_oldest host m).0 ≡ m
unfolding evict_oldest remove
evict_oldest_failed host m e h = ground arith
