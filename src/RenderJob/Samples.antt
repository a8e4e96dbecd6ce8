-- ===== src/RenderJob/Samples.antt =====
-- A manager at work, for the tests: a job that waits, a job that runs, and two images, one of them leased.
use go_graphics.Common.{
  String-discrete, refl, [], ◌∷◌, ℕ, ◌^◌, String, true, false, List, some, length, if◌then◌else◌,
  ◌*◌, same, leb, arith, ◌≡◌, none, Bool-cases, inl, ◌≤◌, subst, ◌<◌, same_eq, inr,
}
use go_graphics.Common.Int.{pos}
use go_graphics.RenderJob.Model.{
  Manager, Host, Config, Job, Request, Artifact, ok, queued, running, minute, is_running, is_queued,
}
use go_graphics.RenderJob.Protocol.{Publisher}
use go_graphics.RenderJob.Worker.{Run}
use go_graphics.Common.Dict.{lookup}
use go_graphics.RenderJob.Cache.Consistent.{IsConsistent}
use go_graphics.RenderJob.Cache.Files.{IsStored, Describes}
use go_graphics.RenderJob.Leases.Counting.{count, Holds, IsCounted}
use go_graphics.Common.Names.{contains}
use go_graphics.RenderJob.Sound.{IsSound, IsBounded}
use go_graphics.RenderJob.Sound.Enrollment.{none_excepted}
use go_graphics.RenderJob.System.{System, Inv}
use go_graphics.RenderJob.Sound.Running.{IsServed, Runs}

abbrev pub sha : List ℕ → String
sha b = if leb (length b) 2 then "short" else "long"

abbrev pub host : Host
host = record {
  unlink = λ _. true;
  readable = λ _. true;
  statfs = some (2 ^ 20, 4096);
  saved = true;
  sha256_hex = sha;
}

abbrev pub publisher : Publisher
publisher = record {
  validate = λ s. ok (record { id = "iris"; canonical = s });
  tier = λ _ _. ok (record { width = 4; height = 3; aa = 1; format = "png" });
  key = λ r t build. if same r.canonical "first" then "k1" else "k2";
}

abbrev pub request : String → Request
request s = record { version = pos 1; build = "b"; recipe = s; tier = "explore" }

abbrev pub config : Config
config = record {
  build = "b";
  queue = 8;
  cache_bytes = 10;
  cache_count = 2;
  max_age = 100 * minute;
}

abbrev pub empty_manager : Manager
empty_manager = record {
  cfg = config;
  jobs = [];
  queue = [];
  artifacts = [];
  bytes = pos 0;
  wake = false;
  closing = false;
  enabled = true;
  opened = pos 0;
  last = "";
  disk = [];
  next = 0;
}

abbrev pub old_image : Artifact
old_image = record { size = 3; created = 3; digest = "long"; refs = pos 0 }

abbrev pub held_image : Artifact
held_image = record { size = 2; created = 1; digest = "short"; refs = pos 1 }

abbrev pub waiting_job : Job
waiting_job = record {
  ref = 0;
  request = request "first";
  state = queued;
  subscribers = "ann" ∷ [];
  owner = "ann";
  created = 5;
  cancel = false;
}

abbrev pub running_job : Job
running_job = record {
  ref = 1;
  request = request "second";
  state = running;
  subscribers = "bob" ∷ [];
  owner = "bob";
  created = 4;
  cancel = true;
}

abbrev pub busy_manager : Manager
busy_manager = record empty_manager {
  jobs = ("k1", waiting_job) ∷ ("k2", running_job) ∷ [];
  queue = "k1" ∷ [];
  artifacts = ("a1", old_image) ∷ ("a2", held_image) ∷ [];
  bytes = pos 5;
  opened = pos 1;
  last = "bob";
  disk = ("a1", 7 ∷ 8 ∷ 9 ∷ []) ∷ ("a2", 1 ∷ 2 ∷ []) ∷ [];
  next = 2;
}

abbrev pub busy_run : Run
busy_run = record { id = "k2"; ref = 1; request = request "second"; cancelled = false }

-- To look at one key, and at the rest.
pub by_key {ℓ} : (P : String → Type ℓ) (k id : String) → P k → (same k id ≡ false → P id) → P id
by_key P k id p q = elim (Bool-cases (same k id)) [
  | inl here ↦ subst P (same_eq k id here) p
  | inr other ↦ q other
]

pub busy-IsConsistent : IsConsistent busy_manager
unfolding lookup String-discrete
busy-IsConsistent = record { distinct = (refl, (refl, tt)); named = refl; counted = refl }

pub busy-IsStored : IsStored sha busy_manager
unfolding lookup String-discrete
busy-IsStored id =
    by_key
      (λ k.
        (a : Artifact) → lookup k busy_manager.artifacts ≡ some a → Describes sha busy_manager k a)
      "a1" id (λ a e. (7 ∷ 8 ∷ 9 ∷ [], refl, ground arith, ground arith))
      λ o1.
        by_key
          (λ k.
            (a : Artifact)
            → lookup k busy_manager.artifacts ≡ some a
            → Describes sha busy_manager k a)
          "a2" id (λ a e. (1 ∷ 2 ∷ [], refl, ground arith, ground arith))
          λ o2 a e. absurd (ground (arith, o1, o2))

pub busy-IsCounted : (id : String) → IsCounted busy_manager ("a2" ∷ []) id
unfolding lookup count String-discrete
busy-IsCounted id =
    by_key (IsCounted busy_manager ("a2" ∷ [])) "a1" id (refl, λ h. absurd (ground arith))
      λ o1.
        by_key (IsCounted busy_manager ("a2" ∷ [])) "a2" id (refl, λ h. refl)
          λ o2. (ground (arith, o1, o2), λ h. absurd (ground (arith, o2)))

pub busy-Holds : Holds busy_manager ("a2" ∷ [])
busy-Holds = record { counted = busy-IsCounted; opened = refl }

abbrev Healthy : String → Type 0
Healthy id =
    (j : Job)
    → lookup id busy_manager.jobs ≡ some j
    → (lookup id busy_manager.artifacts ≡ none)
      × (length j.subscribers ≤ 24)
      × (is_queued j.state ≡ true → contains id busy_manager.queue ≡ true)
      × (j.ref < 2)

busy-Healthy : (id : String) → Healthy id
unfolding lookup contains String-discrete
busy-Healthy id =
    by_key Healthy "k1" id (λ j e. (refl, ground arith, λ q. refl, ground arith))
      λ o1.
        by_key Healthy "k2" id
          (λ j e. (refl, ground arith, λ q. absurd (ground arith), ground arith))
          λ o2 j e. absurd (ground (arith, o1, o2))

pub busy-IsSound : IsSound none_excepted busy_manager
unfolding lookup String-discrete
busy-IsSound = record {
  distinct = (refl, (refl, tt));
  uncached = λ i j e l x. (busy-Healthy i j e).0;
  few = λ i j e. (busy-Healthy i j e).1;
  waiting = λ i j e q. (busy-Healthy i j e).2 q;
  allocated = λ i j e. (busy-Healthy i j e).3;
}

pub busy-IsBounded : IsBounded busy_manager
busy-IsBounded = record { queued = omega arith; owned = λ o. ground arith; jobs = omega arith }

abbrev Serves : String → Type 0
Serves id =
    (j : Job)
    → lookup id busy_manager.jobs ≡ some j
    → is_running j.state ≡ true
    → Runs (some busy_run) id j

busy-Serves : (id : String) → Serves id
unfolding lookup String-discrete
busy-Serves id =
    by_key Serves "k1" id (λ j e r. absurd (ground arith))
      λ o1.
        by_key Serves "k2" id (λ j e r. (busy_run, refl, refl, ground arith))
          λ o2 j e. absurd (ground (arith, o1, o2))

pub busy-IsServed : IsServed (some busy_run) busy_manager
unfolding lookup String-discrete
busy-IsServed = record { distinct = (refl, (refl, tt)); named = refl; runs = busy-Serves }

abbrev pub busy_system : System
busy_system = record { manager = busy_manager; run = some busy_run; held = "a2" ∷ [] }

pub busy-Inv : Inv sha busy_system
busy-Inv = record {
  kept = record {
    settings = omega arith;
    consistent = busy-IsConsistent;
    within = (omega arith, omega arith);
    stored = busy-IsStored;
    holds = busy-Holds;
  };
  sound = busy-IsSound;
  bounded = busy-IsBounded;
  served = busy-IsServed;
}
