-- ===== src/RenderJob/System/Leased.antt =====
-- Opening and closing keep the invariant of the cache and its leases; so does all that leaves them
-- alone.
use go_graphics.Common.{
  refl, ◌∷◌, List, String, ℕ, ◌≡◌, some, true, false, sym, ◌<◌, arith, Bool-cases, same, inl, subst,
  same_eq, inr,
}
use go_graphics.RenderJob.Leases.{close, reserve, release, open_image, reserved, unreserved}
use go_graphics.RenderJob.Model.{Host, Artifact, Manager, Lease, artifact_at, ok}
use go_graphics.RenderJob.Cache.{present}
use go_graphics.Common.Dict.{
  lookup, insert, insert-Distinct, sum_of-insert, lookup-insert, length-sum_of,
}
use go_graphics.RenderJob.Sound.Placement.{SameCache}
use go_graphics.RenderJob.System.Kept.{IsKept}
use go_graphics.RenderJob.Cache.Consistent.{IsConsistent, size_of}
use go_graphics.RenderJob.Cache.Files.{IsStored}
use go_graphics.RenderJob.Cache.Bounds.{IsWithin}
use go_graphics.RenderJob.Leases.Counting.{
  open_image_succeeds, count, remove_one, reserve-Holds, release-Holds,
}

-- Only the number of references changes.
rewrite_entry-IsConsistent :
    (id : String) (a x : Artifact) (m : Manager)
    → lookup id m.artifacts ≡ some a
    → x.size ≡ a.size
    → IsConsistent m
    → IsConsistent (record m { artifacts = insert id x m.artifacts })
rewrite_entry-IsConsistent id a x m e z c = record {
  distinct = insert-Distinct id x m.artifacts c.distinct;
  named = elim (Bool-cases (same id "")) [
    | inl empty ↦ absurd (
        ground (arith, c.named, subst (λ k. lookup k m.artifacts ≡ some a) (same_eq id "" empty) e))
    | inr other ↦ ground (arith, lookup-insert id "" x m.artifacts, c.named)
  ];
  counted = ground (arith, c.counted, sum_of-insert size_of id x m.artifacts, e, z);
}

rewrite_entry-IsWithin :
    (id : String) (a x : Artifact) (m : Manager)
    → lookup id m.artifacts ≡ some a
    → IsWithin m
    → IsWithin (record m { artifacts = insert id x m.artifacts })
rewrite_entry-IsWithin id a x m e w = ground (
  arith,
  sum_of-insert (λ _. 1) id x m.artifacts,
  length-sum_of m.artifacts,
  length-sum_of (insert id x m.artifacts),
  e,
  w,
)

rewrite_entry-IsStored :
    (sha : List ℕ → String) (id : String) (a x : Artifact) (m : Manager)
    → lookup id m.artifacts ≡ some a
    → x.size ≡ a.size
    → x.digest ≡ a.digest
    → IsStored sha m
    → IsStored sha (record m { artifacts = insert id x m.artifacts })
rewrite_entry-IsStored sha id a x m e z d s j y f = elim (Bool-cases (same id j)) [
  | inl here ↦
      let (b, g, n, h) = s j a (subst (λ k. lookup k m.artifacts ≡ some a) (same_eq id j here) e) in
      (
        b,
        g,
        ground (arith, lookup-insert id j x m.artifacts, n, z),
        ground (arith, lookup-insert id j x m.artifacts, h, d),
      )
  | inr there ↦ s j y (ground (arith, lookup-insert id j x m.artifacts))
]

pub open_image-IsKept :
    (host : Host) (now : ℕ) (id : String) (m : Manager) (held : List String) (l : Lease)
    (d : String) (sha : List ℕ → String)
    → IsKept sha held m
    → (open_image host now id m).1 ≡ ok (l, d)
    → IsKept sha (id ∷ held) (open_image host now id m).0
unfolding reserve
open_image-IsKept host now id m held l d sha k e =
    let (a, o, r) = open_image_succeeds host now id m l d e in
    let c = rewrite_entry-IsConsistent id a (reserved a) m o.entry refl k.consistent in
    rw r (record {
      settings = k.settings;
      consistent = record { distinct = c.distinct; named = c.named; counted = c.counted };
      within = rewrite_entry-IsWithin id a (reserved a) m o.entry k.within;
      stored = rewrite_entry-IsStored sha id a (reserved a) m o.entry refl refl k.stored;
      holds = reserve-Holds id a m held k.holds o.entry;
    })

pub entry_of :
    (id : String) (m : Manager)
    → present (lookup id m.artifacts) ≡ true
    → lookup id m.artifacts ≡ some (artifact_at id m)
entry_of id m e = ground arith

pub close-IsKept :
    (l : Lease) (m : Manager) (held : List String) (sha : List ℕ → String)
    → IsKept sha held m
    → l.released ≡ false
    → 0 < count l.id held
    → IsKept sha (remove_one l.id held) (close l m).0
unfolding close release
close-IsKept l m held sha k open_now some_held =
    let a = artifact_at l.id m in
    let e = entry_of l.id m ((k.holds.counted l.id).1 some_held) in
    let c = rewrite_entry-IsConsistent l.id a (unreserved a) m e refl k.consistent in
    rw (open_now, close)
      (record {
        settings = k.settings;
        consistent = record { distinct = c.distinct; named = c.named; counted = c.counted };
        within = rewrite_entry-IsWithin l.id a (unreserved a) m e k.within;
        stored = rewrite_entry-IsStored sha l.id a (unreserved a) m e refl refl k.stored;
        holds = release-Holds l.id m held k.holds some_held;
      })

pub same-IsKept :
    (sha : List ℕ → String) (held : List String) (m k : Manager)
    → SameCache m k
    → IsKept sha held m
    → IsKept sha held k
same-IsKept sha held m k s p = record {
  settings = rw s.cfg p.settings;
  consistent = record {
    distinct = rw s.artifacts p.consistent.distinct;
    named = rw s.artifacts p.consistent.named;
    counted = rw (s.artifacts, s.bytes) p.consistent.counted;
  };
  within = rw (s.artifacts, s.bytes, s.cfg) p.within;
  stored = λ id a e. rw s.disk (p.stored id a (rw (sym s.artifacts) e));
  holds = record {
    counted = λ id. rw s.artifacts (p.holds.counted id);
    opened = rw s.opened p.holds.opened;
  };
}
