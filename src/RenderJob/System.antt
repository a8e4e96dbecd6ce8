-- ===== src/RenderJob/System.antt =====
-- The manager with its worker and its clients: every order of the locked sections, and what each of
-- them keeps.
pub mod Kept
pub mod Leased
pub mod Preserved
pub mod Invariant
pub mod Single
use go_graphics.Common.{refl, [], ◌∷◌, List, Option, ℕ, String, ◌<◌, Bool, ◌≡◌, false, none, some}
use go_graphics.RenderJob.Model.{Manager, Host, Request, canceled, Lease, ok, Result}
use go_graphics.RenderJob.Worker.{Run, begin, finish, shut_down}
use go_graphics.RenderJob.Protocol.{Publisher}
use go_graphics.RenderJob.Cache.Consistent.{IsConsistent}
use go_graphics.RenderJob.Cache.Bounds.{IsWithin}
use go_graphics.RenderJob.Cache.Files.{IsStored}
use go_graphics.RenderJob.Sound.Serving.{HasKeys}
use go_graphics.RenderJob.Admission.{admit}
use go_graphics.RenderJob.Leases.Counting.{Holds, count, remove_one}
use go_graphics.RenderJob.Sound.{IsSound, IsBounded}
use go_graphics.RenderJob.Visitors.{cancel, enable}
use go_graphics.RenderJob.Sound.Enrollment.{none_excepted}
use go_graphics.RenderJob.Sound.Running.{IsServed}
use go_graphics.RenderJob.Leases.{open_image, close}
use go_graphics.RenderJob.Cache.{prune}
use go_graphics.RenderJob.System.Kept.{IsKept}

-- `run` is the worker's work between its two sections, `held` the ids of the leases not closed.
pub record System : Type 0 where
  pub manager : Manager
  pub run : Option Run
  pub held : List String

-- One locked section. `sha` is SHA-256 in hexadecimal. The worker is one goroutine, so it begins only
-- when it has nothing in hand; all else may happen between its two sections.
pub data Step (sha : List ℕ → String) : System → System → Type 0 where
  admits :
      (s : System) (p : Publisher) (host : Host) (now : ℕ) (owner : String) (qs : List Request)
      → HasKeys p
      → Step sha s (record s { manager = (admit p host now s.manager owner qs).0 })
  cancels :
      (s : System) (owner id : String)
      → Step sha s (record s { manager = (cancel owner id s.manager).0 })
  enables : (s : System) (on : Bool) → Step sha s (record s { manager = enable on s.manager })
  opens :
      (s : System) (host : Host) (now : ℕ) (id : String) (l : Lease) (d : String)
      → (open_image host now id s.manager).1 ≡ ok (l, d)
      → Step sha s (record s { manager = (open_image host now id s.manager).0; held = id ∷ s.held })
  closes :
      (s : System) (l : Lease)
      → l.released ≡ false
      → 0 < count l.id s.held
      → Step sha s (record s { manager = (close l s.manager).0; held = remove_one l.id s.held })
  prunes :
      (s : System) (host : Host) (now : ℕ)
      → Step sha s (record s { manager = prune host now s.manager })
  begins :
      (s : System) (now : ℕ)
      → s.run ≡ none
      → Step sha s (record s { manager = (begin now s.manager).0; run = (begin now s.manager).1 })
  finishes :
      (s : System) (host : Host) (now : ℕ) (run : Run) (r : Result (List ℕ)) (late : Bool)
      → host.sha256_hex ≡ sha
      → s.run ≡ some run
      → Step sha s (record s { manager = finish host now run r late s.manager; run = none })
  shuts_down : (s : System) → Step sha s (record s { manager = shut_down s.manager })

-- What always holds between the sections.
pub record Inv (sha : List ℕ → String) (s : System) : Type 0 where
  pub kept : IsKept sha s.held s.manager
  pub sound : IsSound none_excepted s.manager
  pub bounded : IsBounded s.manager
  pub served : IsServed s.run s.manager

-- A sequence of sections.
pub data Reach (sha : List ℕ → String) : System → System → Type 0 where
  stay : (s : System) → Reach sha s s
  step : (s t u : System) → Reach sha s t → Step sha t u → Reach sha s u
