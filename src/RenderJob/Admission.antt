-- ===== src/RenderJob/Admission.antt =====
-- internal/renderjob/manager.go: `Admit`.
pub mod Progress
pub mod Rounds
pub mod Batch
pub mod Atomic
use go_graphics.Common.{
  ℕ, ◌+◌, String, Bool, true, false, not, ◌&&◌, ◌||◌, Option, none, some, List, [], ◌∷◌, ◌++◌,
  length, select, if◌then◌else◌, ltb, leb, bit,
}
use Prim.Native.String.{len}
use go_graphics.Common.Dict.{lookup, insert, sum_of}
use go_graphics.Common.Names.{contains, include}
use go_graphics.RenderJob.Model.{
  Manager, Host, Job, Request, Result, ok, err, busy, failure, queued, ready, is_queued, is_ready,
  is_live,
}
use go_graphics.RenderJob.Cache.{prune, present}
use go_graphics.RenderJob.Protocol.{Publisher, validate_request, ◌>>=◌, ◌>>◌}

-- The body of the first loop: the id under which a request's image is kept.
unfoldable pub identify : Publisher → String → Request → Result String
identify p build q = do
  validate_request p build q
  r ← p.validate q.recipe
  t ← p.tier r.id q.tier
  ok (p.key r t build)

unfoldable pub identify_all : Publisher → String → List Request → Result (List (String × Request))
identify_all p build [] = ok []
identify_all p build (q ∷ qs) = do
  id ← identify p build q
  rest ← identify_all p build qs
  ok ((id, q) ∷ rest)

abbrev pub ids_of : List (String × Request) → List String
ids_of [] = []
ids_of ((id, q) ∷ rest) = id ∷ ids_of rest

-- `len(j.subscribers) >= 24 && !j.subscribers[owner]`
abbrev pub is_crowded : String → Job → Bool
is_crowded owner j = leb 24 (length j.subscribers) && not (contains owner j.subscribers)

-- What the loop that counts makes of one id: `refuses` returns ErrBusy, `joins` adds it to `added`,
-- `creates` adds it to `fresh`.
pub data Verdict : Type 0 where
  refuses joins shares reuses creates : Verdict

unfoldable pub verdict : String → Option Job → Bool → Verdict
verdict owner none cached = if cached then reuses else creates
verdict owner (some j) cached =
    if is_ready j.state && (cached && is_crowded owner j)
    then refuses
    else if is_live j.state
    then (if is_crowded owner j
        then refuses
        else if contains owner j.subscribers
        then shares
        else joins)
    else if cached
    then reuses
    else creates

abbrev pub is_cached : String → Manager → Bool
is_cached id m = present (lookup id m.artifacts)

unfoldable pub survey :
    Manager → String → List String → List String → List String → Option (List String × List String)
survey m owner [] fresh added = some (fresh, added)
survey m owner (id ∷ ids) fresh added = elim (verdict owner (lookup id m.jobs) (is_cached id m)) [
  | refuses ↦ none
  | joins ↦ survey m owner ids fresh (include id added)
  | creates ↦ survey m owner ids (include id fresh) added
  | _ ↦ survey m owner ids fresh added
]

abbrev pub is_owned : String → Job → Bool
is_owned owner j = is_live j.state && contains owner j.subscribers

abbrev pub queued_jobs : Manager → ℕ
queued_jobs m = sum_of (λ j. bit (is_queued j.state)) m.jobs

abbrev pub owned_jobs : String → Manager → ℕ
owned_jobs owner m = sum_of (λ j. bit (is_owned owner j)) m.jobs

-- What the last loop does with one id.
pub data Entry : Type 0 where
  refuse create : Entry
  join : Job → Entry

unfoldable pub entry : String → Option Job → Bool → Entry
entry owner none cached = create
entry owner (some j) cached =
    if (is_live j.state || is_ready j.state) && (not (is_ready j.state) || cached)
    then (if is_crowded owner j then refuse else join j)
    else create

abbrev pub joined : String → Job → Job
joined owner j = record j { subscribers = include owner j.subscribers }

abbrev pub new_job : Manager → ℕ → String → Bool → Request → Job
new_job m now owner cached q = record {
  ref = m.next;
  request = q;
  state = if cached then ready else queued;
  subscribers = owner ∷ [];
  owner = owner;
  created = now;
  cancel = false;
}

unfoldable pub add_job : Manager → ℕ → String → String → Request → Manager
add_job m now owner id q = record m {
  jobs = insert id (new_job m now owner (is_cached id m) q) m.jobs;
  queue = if is_cached id m then m.queue else m.queue ++ id ∷ [];
  next = m.next + 1;
}

unfoldable pub apply_entry : Manager → ℕ → String → String → Request → Entry → Manager × Bool
unfolding add_job
apply_entry m now owner id q refuse = (m, false)
apply_entry m now owner id q (join j) =
    (record m { jobs = insert id (joined owner j) m.jobs }, true)
apply_entry m now owner id q create = (add_job m now owner id q, true)

unfoldable pub enroll : Manager → ℕ → String → List (String × Request) → Manager × Bool
enroll m now owner [] = (m, true)
enroll m now owner ((id, q) ∷ rest) =
    let (m', fine) =
      apply_entry m now owner id q (entry owner (lookup id m.jobs) (is_cached id m)) in
    elim fine [ true ↦ enroll m' now owner rest | false ↦ (m', false) ]

-- `queued+len(fresh) > m.cfg.Queue || owned+len(fresh)+len(added) > 4 || len(m.jobs)+len(ids) > 5000`
abbrev pub exceeds : Manager → String → ℕ → List String × List String → Bool
exceeds m owner n (fresh, added) =
    ltb m.cfg.queue (queued_jobs m + length fresh)
    || ltb 4 (owned_jobs owner m + length fresh + length added)
    || ltb 5000 (length m.jobs + n)

-- `if j := m.jobs[id]; j != nil && j.state == "queued"`
abbrev pub is_waiting : Manager → String → Bool
is_waiting m id = elim (lookup id m.jobs) [ none ↦ false | some j ↦ is_queued j.state ]

unfoldable pub tidy_queue : Manager → Manager
tidy_queue m = record m { queue = select (is_waiting m) m.queue }

-- `Admit` behind the checks of the requests.
unfoldable pub place :
    Manager → ℕ → String → List (String × Request) → Manager × Result (List String)
place m now owner batch =
    if not m.enabled || m.closing
    then (m, err busy)
    else elim (survey m owner (ids_of batch) [] []) [
      | none ↦ (m, err busy)
      | some sets ↦
          if exceeds m owner (length batch) sets
          then (m, err busy)
          else let r = enroll m now owner batch in
            if r.1 then (record r.0 { wake = true }, ok (ids_of batch)) else (r.0, err busy)
    ]

-- `Admit`. `len` of a text is the number of its bytes, as in Go.
unfoldable pub admit :
    Publisher → Host → ℕ → Manager → String → List Request → Manager × Result (List String)
admit p host now m owner qs =
    if leb 1 (len owner) && leb (len owner) 64 && (leb 1 (length qs) && leb (length qs) 4)
    then elim (identify_all p m.cfg.build qs) [
      | err e ↦ (m, err e)
      | ok batch ↦ place (tidy_queue (prune host now m)) now owner batch
    ]
    else (m, err (failure "invalid batch"))
