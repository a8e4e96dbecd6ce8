-- ===== src/Studio/Handlers.antt =====
-- internal/studio/persistent.go: the handlers, each in its transaction, and those that work on the rows
-- directly.
pub mod Limits
pub mod Storage
use Prim.Native.String.{len}
use go_graphics.Common.{
  ℕ, ◌+◌, ◌*◌, String, Bool, true, false, not, ◌||◌, Option, none, some, List, [], ◌∷◌, length,
  if◌then◌else◌, same, leb, ◌==◌,
}
use go_graphics.Common.Dict.{insert, Dict, lookup}
use go_graphics.Common.Int.{ℤ}
use go_graphics.RenderJob.Model.{Result, ok, err, busy, err_expired, err_unavailable, minute}
use go_graphics.Studio.Model.{
  Workspace, Sample, Exploration, Ambient, Favourite, ◌>>=◌, Operation, OpenExploration,
  OpenWorkspace, Store, on_workspace, save,
}
use go_graphics.Studio.View.{get_exploration, favourites, recovery}
use go_graphics.Studio.Generation.{generate, request}
use go_graphics.Studio.Choosing.{
  choices, cancel_batch, download, retry, is_served, set_favourite, with_samples,
}
use go_graphics.Studio.Entering.{enter, restore}
use go_graphics.Studio.Transaction.{
  Backend, Database, Connection, Row, transaction, live_row, commit,
}
use go_graphics.Studio.Visits.{cancel_explorations}

abbrev pub ninety_days : ℕ
ninety_days = 90 * 24 * 60 * minute

abbrev pub row_of : ℕ → String → Row
row_of now csrf = record { csrf = csrf; text = ""; expires = now + ninety_days; touched = now }

abbrev pub expire : ℕ → Row → Row
expire now r = record r { expires = now }

module _ {S J : Type 0} (b : Backend S J) (c : Connection) (h : Ambient) where
  -- `Create`: the statements stand in the order of the tests. A key that is taken fails the `INSERT`.
  abbrev pub is_taken : String → Database J → Bool
  is_taken id db = elim (lookup id db.workspaces) [ none ↦ false | some r ↦ true ]

  abbrev pub with_row : Database J → Database J
  with_row db = record db {
    workspaces = insert (b.token_hash (h.token 0)) (row_of h.now (h.token 1)) db.workspaces;
  }

  unfoldable pub create_row : Database J → Result Workspace × Database J
  create_row db =
      if not c.begins || (not c.locks || not c.reads)
      then (err err_unavailable, db)
      else if leb 1000 (length db.workspaces)
      then (err busy, db)
      else if not c.updates || is_taken (b.token_hash (h.token 0)) db
      then (err err_unavailable, db)
      else commit b c (record { token = h.token 0; csrf = h.token 1 }) db (ok (with_row db))

  abbrev pub session_of : String → Option Row → Result Workspace
  session_of token none = err err_expired
  session_of token (some r) = ok (record { token = token; csrf = r.csrf })

  -- `Session` reads one row and changes nothing. `len` counts bytes.
  unfoldable pub read_session : String → Database J → Result Workspace
  read_session token db =
      if not (len token == 48)
      then err err_expired
      else if not c.reads
      then err err_unavailable
      else session_of token (live_row b h.now (b.token_hash token) db.workspaces)

  abbrev pub renew : Row → Row
  renew r = record r { touched = h.now; expires = h.now + ninety_days }

  abbrev pub touch_found : String → Database J → Option Row → Result (Unit {0}) × Database J
  touch_found id db none = (err err_expired, db)
  touch_found id db (some r) = (ok tt, record db { workspaces = insert id (renew r) db.workspaces })

  -- `Touch`: a statement that ends in an error may have been carried out.
  unfoldable pub touch_row : String → Database J → Result (Unit {0}) × Database J
  touch_row token db =
      let touched =
        touch_found (b.token_hash token) db (live_row b h.now (b.token_hash token) db.workspaces) in
      if c.updates then touched else (err err_unavailable, if c.applies then touched.1 else db)

  -- The methods that pass a handler on.
  abbrev pub get_saved : String → String → Database J → Result Exploration × Database J
  get_saved t id = transaction b c h.now t false (λ k. get_exploration b.services.queue h k id)

  abbrev pub enter_saved :
      String → String → String → String → String → Database J → Result String × Database J
  enter_saved t artwork style colour action_id =
      transaction b c h.now t true (λ k. enter b.services h k artwork style colour action_id)

  abbrev pub favourites_saved :
      (List Favourite → List Favourite) → String → Database J → Result (List Favourite) × Database J
  favourites_saved sort t = transaction b c h.now t false (favourites b.services.queue sort h)

  abbrev pub choices_saved :
      String → String → ℤ → String → String → Database J → Result (Unit {0}) × Database J
  choices_saved t id revision style colour =
      transaction b c h.now t true (λ k. choices b.services.queue h k id revision style colour)

  abbrev pub retry_saved :
      String → String → ℤ → String → String → Database J → Result String × Database J
  retry_saved t id revision action_id batch =
      transaction b c h.now t true (λ k. retry b.services h k id revision action_id batch)

  abbrev pub generate_saved :
      String → String → ℤ → String → List String → Bool → Database J → Result String × Database J
  generate_saved t id revision action_id selected different =
      transaction b c h.now t true
        (λ k. generate b.services h k id revision action_id selected different)

  abbrev pub cancel_saved :
      String → String → ℤ → String → Database J → Result (Unit {0}) × Database J
  cancel_saved t id revision batch =
      transaction b c h.now t true (λ k. cancel_batch b.services.queue h k id revision batch)

  abbrev pub download_saved : String → String → String → Database J → Result (Unit {0}) × Database J
  download_saved t id sample =
      transaction b c h.now t true (λ k. download b.services.queue h k id sample)

  abbrev pub recovery_saved : String → Database J → Result (List String) × Database J
  recovery_saved t = transaction b c h.now t false (recovery b.services.queue h)

  abbrev pub restore_saved : String → List String → Database J → Result String × Database J
  restore_saved t records = transaction b c h.now t true (λ k. restore b.services h k records)

  -- The loop of `Favourite` renders again what is gone: it stops at the first sample of this name that is
  -- there, and goes on behind one that it has ordered.
  abbrev pub prepend : Sample → Result (List Sample) × J → Result (List Sample) × J
  prepend a (err e, j) = (err e, j)
  prepend a (ok rest, j) = (ok (a ∷ rest), j)

  -- The queue answers one request with one job; Go panics on none.
  abbrev pub reorder :
      Sample → (J → Result (List Sample) × J) → Result (List String) × J → Result (List Sample) × J
  reorder a next (err e, j) = (err e, j)
  reorder a next (ok [], j) = prepend a (next j)
  reorder a next (ok (job ∷ jobs), j) = prepend (record a { job = job }) (next j)

  abbrev pub render_again : String → String → String → List Sample → J → Result (List Sample) × J
  render_again build k sample [] j = (ok [], j)
  render_again build k sample (a ∷ rest) j =
      if not (same a.id sample)
      then prepend a (render_again build k sample rest j)
      else if is_served b.services.queue h (b.services.queue.status j k a.job)
      then (ok (a ∷ rest), j)
      else reorder a (render_again build k sample rest)
          (b.services.queue.admit k (request build a.recipe ∷ []) j)

  abbrev pub finish_favourite :
      String
      → String
      → OpenExploration
      → Store J
      → Result (List Sample) × J
      → Result (Unit {0}) × Store J
  finish_favourite k id x s (err e, j) = (err e, record s { jobs = some j })
  finish_favourite k id x s (ok samples, j) =
      (ok tt, save k id (with_samples samples x) (record s { jobs = some j }))

  -- The handler has found the exploration under these keys before.
  abbrev pub favourite_again :
      String
      → String
      → String
      → Option OpenExploration
      → Option J
      → Store J
      → Result (Unit {0}) × Store J
  favourite_again k id sample (some x) (some j) s =
      finish_favourite k id x s (render_again s.build k sample x.view.samples j)
  favourite_again k id sample _ _ s = (ok tt, s)

  abbrev exploration_at : String → Option OpenWorkspace → Option OpenExploration
  exploration_at id none = none
  exploration_at id (some w) = lookup id w.explorations

  abbrev pub keep_image : String → String → ℤ → Bool → String → Operation J (Unit {0})
  keep_image id sample revision on k = do
    _ ← set_favourite b.services.queue h k id sample revision on
    λ s.
        if not on
        then (ok tt, s)
        else favourite_again k id sample (exploration_at id (lookup k s.workspaces)) s.jobs s

  abbrev pub favourite_saved :
      String → String → String → ℤ → Bool → Database J → Result (Unit {0}) × Database J
  favourite_saved t id sample revision on =
      transaction b c h.now t true (keep_image id sample revision on)

  abbrev pub emptied : OpenWorkspace → OpenWorkspace
  emptied w = record w { explorations = []; entries = [] }

  abbrev pub cancel_in : String → Option OpenWorkspace → Option J → Option J
  cancel_in k (some w) (some j) = some (cancel_explorations b.services.queue k w.explorations j)
  cancel_in k _ j = j

  -- The function that `Clear` passes to the transaction, but for the row's expiry.
  abbrev pub empty_out : String → Operation J (Unit {0})
  empty_out k s = (
    if c.updates then ok tt else err err_unavailable,
    on_workspace k emptied (record s { jobs = cancel_in k (lookup k s.workspaces) s.jobs }),
  )

  abbrev pub expire_row : String → Dict Row → Dict Row
  expire_row id rows = elim (lookup id rows) [
    | none ↦ rows
    | some r ↦ insert id (expire h.now r) rows
  ]

  -- The transaction's tables before the commit, with the expiry, and then the commit.
  abbrev pub commit_expired :
      String → Database J → Result (Unit {0}) × Database J → Result (Unit {0}) × Database J
  commit_expired id db (err e, new) = (err e, db)
  commit_expired id db (ok u, new) =
      commit b c tt db (ok (record new { workspaces = expire_row id new.workspaces }))

  -- `Clear`
  unfoldable pub clear_saved : String → Database J → Result (Unit {0}) × Database J
  clear_saved t db =
      commit_expired (b.token_hash t) db
        (transaction b (record c { commits = true }) h.now t true empty_out db)
