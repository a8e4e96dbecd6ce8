-- ===== src/Studio/Transaction.antt =====
-- internal/studio/persistent.go: the handlers inside a database transaction. The tables are a value; a
-- transaction works on its copy, which counts only if the commit is carried out.
pub mod Refinement
use go_graphics.Common.{
  ℕ, ◌+◌, ◌*◌, ◌^◌, String, Bool, true, false, not, ◌||◌, ◌&&◌, Option, none, some, List, [], ◌∷◌,
  ◌++◌, map, select, length, total, if◌then◌else◌, same, ltb, leb, ◌==◌,
}
use Prim.Native.String.{len}
use go_graphics.Common.Dict.{Dict, lookup, insert, sum_of}
use go_graphics.Common.Int.{ℤ, pos}
use go_graphics.Common.Names.{contains}
use go_graphics.Common.Texts.{byte_len}
use go_graphics.Artwork.{Recipe}
use go_graphics.RenderJob.Model.{
  Result, ok, err, Error, busy, err_expired, err_unavailable, sql_error, Request, is_live, is_ready,
}
use go_graphics.Studio.Model.{
  Workspace, Sample, Exploration, OpenExploration, OpenWorkspace, Store, Jobs, Services, Ambient,
  Operation, Favourite, on_workspace, save,
}
use go_graphics.Studio.Visits.{cancel_explorations}
use go_graphics.Studio.View.{get_exploration, favourites, recovery}
use go_graphics.Studio.Generation.{generate, request}
use go_graphics.Studio.Choosing.{
  choices, set_favourite, cancel_batch, download, retry, replace, sample_in, with_samples,
  is_served,
}
use go_graphics.Studio.Entering.{enter, restore}
use go_graphics.Studio.Persistent.{Codec, encode_workspace, decode_workspace}

-- A row of `art_workspaces`.
pub record Row : Type 0 where
  pub csrf : String
  pub text : String
  pub expires : ℕ
  pub touched : ℕ

-- A row of `art_pins`.
pub record Pin : Type 0 where
  pub workspace : String
  pub sample : String
  pub request : String

-- The queue's tables are its state.
pub record Database (J : Type 0) : Type 0 where
  pub workspaces : Dict Row
  pub pins : List Pin
  pub queue : J

-- Which statements the database carries out while a transaction runs.
pub record Connection : Type 0 where
  pub begins : Bool
  pub locks : Bool
  pub reads : Bool
  pub sums : Bool
  pub updates : Bool
  pub unpins : Bool
  pub pins : Bool
  pub interests : Bool
  pub notifies : Bool
  pub commits : Bool  -- the client learns that the transaction is committed
  pub applies : Bool  -- it is committed, although the client learns of an error

-- `persistence.TokenHash`, the codec, the queue of a transaction with the error that it records and the
-- requests in which a workspace has an interest.
pub record Backend (S J : Type 0) : Type 0 where
  pub services : Services S J
  pub codec : Codec
  pub token_hash : String → String
  pub failed : J → Bool
  pub interests : J → String → List String
  pub build : String

-- The deferred function of `transaction`.
abbrev pub hide_state : {A : Type 0} → Result A → Result A
hide_state (err (sql_error state)) = err err_unavailable
hide_state r = r

abbrev pub new_row : String → String → OpenWorkspace
new_row id csrf = record {
  workspace = record { token = id; csrf = csrf };
  created = 0;
  touched = 0;
  explorations = [];
  entries = [];
}

abbrev pub single_store : {J : Type 0} → String → String → OpenWorkspace → J → Store J
single_store build id w j = record {
  workspaces = (id, w) ∷ [];
  jobs = some j;
  build = build;
  persistent = true;
}

-- The workspace behind the pointer `w` after the handler.
abbrev pub workspace_or : OpenWorkspace → Option OpenWorkspace → OpenWorkspace
workspace_or w none = w
workspace_or w (some v) = v

abbrev pub queue_or : {J : Type 0} → J → Option J → J
queue_or j none = j
queue_or j (some k) = k

abbrev pub is_pinned : Sample → Bool
is_pinned a = a.favourite && not (same a.job "")

abbrev pub pin_samples : String → List Sample → List Pin
pin_samples id samples =
    map (λ a. record { workspace = id; sample = a.id; request = a.job }) (select is_pinned samples)

abbrev pub pin_all : String → Dict OpenExploration → List Pin
pin_all id [] = []
pin_all id ((i, x) ∷ rest) = pin_samples id x.view.samples ++ pin_all id rest

-- The map `keep`.
abbrev pub requests_of : List Sample → List String
requests_of [] = []
requests_of (a ∷ rest) =
    let more = requests_of rest in
    let with_download = if same a.download "" then more else a.download ∷ more in
    if same a.job "" then with_download else a.job ∷ with_download

abbrev pub all_requests : Dict OpenExploration → List String
all_requests [] = []
all_requests ((i, x) ∷ rest) = requests_of x.view.samples ++ all_requests rest

abbrev pub other_size : String → Dict Row → ℕ
other_size id [] = 0
other_size id ((i, r) ∷ rest) =
    let more = other_size id rest in if same i id then more else byte_len r.text + more

abbrev pub set_data : String → String → Dict Row → Dict Row
set_data id text rows = elim (lookup id rows) [
  | none ↦ rows
  | some r ↦ insert id (record r { text = text }) rows
]

module _ {S J : Type 0} (b : Backend S J) where
  abbrev pub cancel_all : String → List String → J → J
  cancel_all id [] j = j
  cancel_all id (key ∷ rest) j = cancel_all id rest (b.services.queue.cancel id key j)

  abbrev pub obsolete : String → OpenWorkspace → J → List String
  obsolete id w j =
      select (λ key. not (contains key (all_requests w.explorations))) (b.interests j id)

  abbrev pub unpinned : String → Database J → List Pin
  unpinned id db = select (λ p. not (same p.workspace id)) db.pins

  -- The tables after the statements of a write.
  abbrev pub written : String → String → OpenWorkspace → J → Database J → Database J
  written id text w j db = record {
    workspaces = set_data id text db.workspaces;
    pins = unpinned id db ++ pin_all id w.explorations;
    queue = cancel_all id (obsolete id w j) j;
  }

  -- From the `UPDATE` to the notification: the first statement that fails ends it.
  abbrev pub run_writes :
      Connection → String → String → OpenWorkspace → J → Database J → Result (Database J)
  run_writes c id text w j db =
      if not (
        c.updates
        && (c.unpins && ((c.pins || leb (length (pin_all id w.explorations)) 0) && c.interests)))
      then err err_unavailable
      else if b.failed (cancel_all id (obsolete id w j) j)
      then err err_unavailable
      else if not c.notifies
      then err err_unavailable
      else ok (written id text w j db)

  abbrev pub store_text :
      Connection → String → OpenWorkspace → J → Database J → Result String → Result (Database J)
  store_text c id w j db (err e) = err e
  store_text c id w j db (ok text) =
      if not c.sums
      then err err_unavailable
      else if ltb (64 * 2 ^ 20) (other_size id db.workspaces + byte_len text)
      then err busy
      else run_writes c id text w j db

  abbrev pub store_back :
      Connection → Bool → String → OpenWorkspace → J → Database J → Result (Database J)
  store_back c write id w j db =
      if write
      then store_text c id w j db (encode_workspace b.codec w)
      else ok (record db { queue = j })

  -- Behind a commit that ends in an error, the new tables may stand or the old ones.
  abbrev pub commit :
      {A : Type 0} → Connection → A → Database J → Result (Database J) → Result A × Database J
  commit c a db (err e) = (err e, db)
  commit c a db (ok new) =
      if c.commits then (ok a, new) else (err err_unavailable, if c.applies then new else db)

  abbrev pub conclude_call :
      {A : Type 0}
      → Connection
      → Bool
      → String
      → OpenWorkspace
      → J
      → Database J
      → Result A × Store J
      → Result A × Database J
  conclude_call c write id w j db (err e, s) = (err e, db)
  conclude_call c write id w j db (ok a, s) =
      if b.failed (queue_or j s.jobs)
      then (err err_unavailable, db)
      else commit c a db
          (store_back c write id (workspace_or w (lookup id s.workspaces)) (queue_or j s.jobs) db)

  abbrev pub call_loaded :
      {A : Type 0}
      → Connection
      → Bool
      → String
      → (String → Operation J A)
      → Database J
      → Result OpenWorkspace
      → Result A × Database J
  call_loaded c write id fn db (err e) = (err err_unavailable, db)
  call_loaded c write id fn db (ok w) =
      conclude_call c write id w db.queue db (fn id (single_store b.build id w db.queue))

  abbrev pub live_row : ℕ → String → Dict Row → Option Row
  live_row now id rows = elim (lookup id rows) [
    | none ↦ none
    | some r ↦ if ltb now r.expires then some r else none
  ]

  abbrev pub call_row :
      {A : Type 0}
      → Connection
      → Bool
      → String
      → (String → Operation J A)
      → Database J
      → Option Row
      → Result A × Database J
  call_row c write id fn db none = (err err_expired, db)
  call_row c write id fn db (some r) =
      call_loaded c write id fn db (decode_workspace b.codec r.text (new_row id r.csrf))

  abbrev pub run_transaction :
      {A : Type 0}
      → Connection
      → ℕ
      → String
      → Bool
      → (String → Operation J A)
      → Database J
      → Result A × Database J
  run_transaction c now token write fn db =
      if not c.begins || ((write && not c.locks) || not c.reads)
      then (err err_unavailable, db)
      else call_row c write (b.token_hash token) fn db
          (live_row now (b.token_hash token) db.workspaces)

  unfoldable pub transaction :
      {A : Type 0}
      → Connection
      → ℕ
      → String
      → Bool
      → (String → Operation J A)
      → Database J
      → Result A × Database J
  transaction c now token write fn db = (
    hide_state (run_transaction c now token write fn db).0,
    (run_transaction c now token write fn db).1,
  )
