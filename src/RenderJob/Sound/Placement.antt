-- ===== src/RenderJob/Sound/Placement.antt =====
-- `Admit` behind the checks of the requests: the states that it may end in, and what it leaves alone.
use go_graphics.Common.{ℕ, ◌≡◌, refl, String, true, List, [], ◌∷◌, arith, Bool-cases, inl, inr}
use go_graphics.Common.Dict.{lookup}
use go_graphics.RenderJob.Model.{Manager, Request}
use go_graphics.RenderJob.Admission.{
  Entry, refuse, entry, apply_entry, add_job, is_cached, enroll, place,
}

-- The states that `place` may end in.
pub place_cases {ℓ} :
    (P : Manager → Type ℓ) (m : Manager) (now : ℕ) (owner : String)
    (batch : List (String × Request))
    → P m
    → P (enroll m now owner batch).0
    → P (record (enroll m now owner batch).0 { wake = true })
    → P (place m now owner batch).0
unfolding place
place_cases P m now owner batch p q r = ground arith

-- `k` has the cache, the leases and the configuration of `m`.
pub record SameCache (m k : Manager) : Type 0 where
  pub cfg : k.cfg ≡ m.cfg
  pub artifacts : k.artifacts ≡ m.artifacts
  pub bytes : k.bytes ≡ m.bytes
  pub disk : k.disk ≡ m.disk
  pub opened : k.opened ≡ m.opened

apply_entry-SameCache :
    (m k : Manager) (now : ℕ) (owner id : String) (q : Request) (t : Entry)
    → SameCache m k
    → SameCache m (apply_entry k now owner id q t).0
unfolding apply_entry add_job
apply_entry-SameCache m k now owner id q refuse c = c
apply_entry-SameCache m k now owner id q _ c = record {
  cfg = c.cfg;
  artifacts = c.artifacts;
  bytes = c.bytes;
  disk = c.disk;
  opened = c.opened;
}

enroll-SameCache :
    (m k : Manager) (now : ℕ) (owner : String) (batch : List (String × Request))
    → SameCache m k
    → SameCache m (enroll k now owner batch).0
unfolding enroll
enroll-SameCache m k now owner [] c = c
enroll-SameCache m k now owner ((id, q) ∷ rest) c =
    let t = entry owner (lookup id k.jobs) (is_cached id k) in
    let c' = apply_entry-SameCache m k now owner id q t c in
    elim (Bool-cases (apply_entry k now owner id q t).1) [
      | inl fine ↦
          rw (fine, enroll)
            (enroll-SameCache m (apply_entry k now owner id q t).0 now owner rest c')
      | inr full ↦ rw (full, enroll) c'
    ]

pub place-SameCache :
    (m : Manager) (now : ℕ) (owner : String) (batch : List (String × Request))
    → SameCache m (place m now owner batch).0
place-SameCache m now owner batch =
    let c : SameCache m m = record {
      cfg = refl;
      artifacts = refl;
      bytes = refl;
      disk = refl;
      opened = refl;
    } in
    let e = enroll-SameCache m m now owner batch c in
    place_cases (SameCache m) m now owner batch c e (record {
      cfg = e.cfg;
      artifacts = e.artifacts;
      bytes = e.bytes;
      disk = e.disk;
      opened = e.opened;
    })
