-- ===== src/Studio/Handlers/Storage.antt =====
-- The tables that a transaction commits are within the limits of the storage.
use go_graphics.Common.{
  ◌≡◌, refl, subst, ap, arith, ℕ, ◌+◌, ◌*◌, ◌^◌, ◌≤◌, String, Bool, not, ◌||◌, ◌&&◌, Option, none,
  some, [], ◌∷◌, length, Bool-cases, Option-cases, inl, inr, if_both, leb, ltb, same, same_eq,
}
use go_graphics.Common.Dict.{
  Dict, lookup, insert, Distinct, sum_of, weight, sum_of-insert, insert-Distinct,
}
use go_graphics.Common.Each.{length-insert_present}
use go_graphics.Common.Texts.{byte_len}
use go_graphics.RenderJob.Model.{Result, ok, err, Error, err_unavailable}
use go_graphics.RenderJob.Protocol.{ok_inj}
use go_graphics.Studio.Model.{Store, Operation, OpenWorkspace}
use go_graphics.Studio.Persistent.{encode_workspace, decode_workspace}
use go_graphics.Studio.Transaction.{
  Row, Database, Connection, Backend, transaction, call_row, call_loaded, conclude_call, commit,
  store_back, store_text, run_writes, written, set_data, other_size, new_row, queue_or, pin_all,
  cancel_all, obsolete,
}

abbrev pub row_size : Row → ℕ
row_size r = byte_len r.text

-- The limits of the table of workspaces.
pub record IsSmall (rows : Dict Row) : Type 0 where
  pub distinct : Distinct rows
  pub count : length rows ≤ 1000
  pub bytes : sum_of row_size rows ≤ 64 * 2 ^ 20

other_size_absent :
    (id : String) (rows : Dict Row)
    → lookup id rows ≡ none
    → other_size id rows ≡ sum_of row_size rows
unfolding lookup
other_size_absent id [] e = refl
other_size_absent id ((i, r) ∷ rows) e = ground (arith, other_size_absent id rows)

other_size_lem :
    (id : String) (rows : Dict Row)
    → Distinct rows
    → other_size id rows + weight row_size (lookup id rows) ≡ sum_of row_size rows
unfolding lookup
other_size_lem id [] d = refl
other_size_lem id ((i, r) ∷ rows) (new, d) = elim (Bool-cases (same i id)) [
  | inl equal ↦ ground (
    arith,
    equal,
    other_size_absent id rows (subst (λ k. lookup k rows ≡ none) (same_eq i id equal) new),
  )
  | inr other ↦ ground (arith, other, other_size_lem id rows d)
]

-- A row whose text does not grow.
pub replace-IsSmall :
    (id : String) (old new : Row) (rows : Dict Row)
    → lookup id rows ≡ some old
    → other_size id rows + row_size new ≤ 64 * 2 ^ 20
    → IsSmall rows
    → IsSmall (insert id new rows)
replace-IsSmall id old new rows found fits small = record {
  distinct = insert-Distinct id new rows small.distinct;
  count = ground (arith, length-insert_present id new old rows found, small.count);
  bytes = ground (
    arith,
    sum_of-insert row_size id new rows,
    other_size_lem id rows small.distinct,
    found,
    fits,
  );
}

pub same_text-IsSmall :
    (id : String) (old new : Row) (rows : Dict Row)
    → lookup id rows ≡ some old
    → new.text ≡ old.text
    → IsSmall rows
    → IsSmall (insert id new rows)
same_text-IsSmall id old new rows found equal small =
    replace-IsSmall id old new rows found
      (ground (arith, other_size_lem id rows small.distinct, found, small.bytes, ap byte_len equal))
      small

pub set_data-IsSmall :
    (id text : String) (rows : Dict Row)
    → other_size id rows + byte_len text ≤ 64 * 2 ^ 20
    → IsSmall rows
    → IsSmall (set_data id text rows)
set_data-IsSmall id text rows fits small = elim (Option-cases (lookup id rows)) [
  | inl absent ↦ rw (set_data, absent) small
  | inr (r, found) ↦
      rw (set_data, found) (replace-IsSmall id r (record r { text = text }) rows found fits small)
]

module _ {S J : Type 0} (b : Backend S J) where
  -- Tables that a transaction is ready to commit are within the limits.
  unfoldable pub IsSmallResult : Result (Database J) → Type 0
  IsSmallResult r = (new : Database J) → r ≡ ok new → IsSmall new.workspaces

  failed-IsSmall : (e : Error) → IsSmallResult (err e)
  unfolding IsSmallResult
  failed-IsSmall e new f = absurd (ground (arith, f))

  pub ready_small : (db : Database J) → IsSmall db.workspaces → IsSmallResult (ok db)
  unfolding IsSmallResult
  ready_small db small new e = subst (λ d. IsSmall d.workspaces) (ok_inj e) small

  run_writes-IsSmall :
      (c : Connection) (id text : String) (w : OpenWorkspace) (j : J) (db : Database J)
      → other_size id db.workspaces + byte_len text ≤ 64 * 2 ^ 20
      → IsSmall db.workspaces
      → IsSmallResult (run_writes b c id text w j db)
  unfolding IsSmallResult
  run_writes-IsSmall c id text w j db fits small =
      if_both IsSmallResult
        (not (
          c.updates
          && (c.unpins && ((c.pins || leb (length (pin_all id w.explorations)) 0) && c.interests))))
        (err err_unavailable) _ (failed-IsSmall err_unavailable)
        (if_both IsSmallResult (b.failed (cancel_all b id (obsolete b id w j) j))
          (err err_unavailable) _ (failed-IsSmall err_unavailable)
          (if_both IsSmallResult (not c.notifies) (err err_unavailable)
            (ok (written b id text w j db)) (failed-IsSmall err_unavailable)
            λ new e.
              subst (λ d. IsSmall d.workspaces) (ok_inj {a = written b id text w j db} e)
                (set_data-IsSmall id text db.workspaces fits small)))

  store_text-IsSmall :
      (c : Connection) (id : String) (w : OpenWorkspace) (j : J) (db : Database J)
      (r : Result String)
      → IsSmall db.workspaces
      → IsSmallResult (store_text b c id w j db r)
  unfolding IsSmallResult
  store_text-IsSmall c id w j db (err f) small = λ new e. absurd (ground (arith, e))
  store_text-IsSmall c id w j db (ok text) small =
      if_both IsSmallResult (not c.sums) _ _ (λ new e. absurd (ground (arith, e)))
        (elim (Bool-cases (ltb (64 * 2 ^ 20) (other_size id db.workspaces + byte_len text))) [
          | inl full ↦ rw (full) (λ new e. absurd (ground (arith, e)))
          | inr fits ↦ rw (fits) (run_writes-IsSmall c id text w j db (ground (arith, fits)) small)
        ])

  store_back-IsSmall :
      (c : Connection) (write : Bool) (id : String) (w : OpenWorkspace) (j : J) (db : Database J)
      → IsSmall db.workspaces
      → IsSmallResult (store_back b c write id w j db)
  unfolding IsSmallResult
  store_back-IsSmall c write id w j db small =
      if_both IsSmallResult write _ _
        (store_text-IsSmall c id w j db (encode_workspace b.codec w) small)
        (λ new e. subst (λ d. IsSmall d.workspaces) (ok_inj e) small)

module _ {S J : Type 0} (b : Backend S J) {A : Type 0} (c : Connection) where
  abbrev pub Keeps : Result A × Database J → Type 0
  Keeps r = IsSmall r.1.workspaces

  pub commit-Keeps :
      (a : A) (db : Database J) (r : Result (Database J))
      → IsSmall db.workspaces
      → IsSmallResult b r
      → Keeps (commit b c a db r)
  unfolding IsSmallResult
  commit-Keeps a db (err e) small h = small
  commit-Keeps a db (ok new) small h =
      if_both Keeps c.commits (ok a, new) _ (h new refl)
        (if_both (λ d. IsSmall d.workspaces) c.applies new db (h new refl) small)

  conclude_call-Keeps :
      (write : Bool) (id : String) (w : OpenWorkspace) (j : J) (db : Database J)
      (r : Result A × Store J)
      → IsSmall db.workspaces
      → Keeps (conclude_call b c write id w j db r)
  conclude_call-Keeps write id w j db (err e, s) small = small
  conclude_call-Keeps write id w j db (ok a, s) small =
      if_both Keeps (b.failed (queue_or j s.jobs)) _ _ small
        (commit-Keeps a db _ small (store_back-IsSmall b c write id _ (queue_or j s.jobs) db small))

  call_row-Keeps :
      (write : Bool) (id : String) (fn : String → Operation J A) (db : Database J) (o : Option Row)
      → IsSmall db.workspaces
      → Keeps (call_row b c write id fn db o)
  call_row-Keeps write id fn db none small = small
  call_row-Keeps write id fn db (some r) small =
      loaded (decode_workspace b.codec r.text (new_row id r.csrf))
    where
      loaded : (w : Result OpenWorkspace) → Keeps (call_loaded b c write id fn db w)
      loaded (err e) = small
      loaded (ok w) = conclude_call-Keeps write id w db.queue db _ small

  pub transaction-Keeps :
      (now : ℕ) (token : String) (write : Bool) (fn : String → Operation J A) (db : Database J)
      → IsSmall db.workspaces
      → Keeps (transaction b c now token write fn db)
  unfolding transaction
  transaction-Keeps now token write fn db small =
      if_both Keeps (not c.begins || ((write && not c.locks) || not c.reads)) _ _ small
        (call_row-Keeps write (b.token_hash token) fn db _ small)
