-- ===== src/Studio/Handlers/Limits.antt =====
-- The database under any sequence of the methods of `Persistent`: it keeps its limits.
use go_graphics.Common.{
  ◌≡◌, refl, subst, arith, ℕ, ◌+◌, String, Bool, true, false, not, ◌||◌, none, length, Bool-cases,
  Option-cases, inl, inr, if_both, leb,
}
use go_graphics.Common.Dict.{Dict, lookup, insert, sum_of, weight, sum_of-insert, insert-Distinct}
use go_graphics.Common.Each.{length-insert_absent}
use go_graphics.Common.Texts.{byte_len}
use go_graphics.RenderJob.Model.{Result, ok, err}
use go_graphics.Studio.Model.{Operation, Ambient, Workspace}
use go_graphics.Studio.Transaction.{Row, Database, Connection, Backend, transaction, live_row}
use go_graphics.Studio.Handlers.{
  create_row, touch_row, touch_found, clear_saved, commit_expired, expire_row, with_row, is_taken,
  renew, expire, row_of, empty_out,
}
use go_graphics.Studio.Transaction.Refinement.{live_row-lookup}
use go_graphics.Studio.Handlers.Storage.{
  IsSmall, Keeps, same_text-IsSmall, commit-Keeps, transaction-Keeps, ready_small, row_size,
}

module _ {S J : Type 0} (b : Backend S J) (c : Connection) (h : Ambient) where
  free_absent :
      (id : String) (db : Database J)
      → is_taken b c h id db ≡ false
      → lookup id db.workspaces ≡ none
  free_absent id db free = elim (Option-cases (lookup id db.workspaces)) [
    | inl absent ↦ absent
    | inr (r, found) ↦ absurd (ground (arith, free, found))
  ]

  with_row-IsSmall :
      (db : Database J)
      → leb 1000 (length db.workspaces) ≡ false
      → is_taken b c h (b.token_hash (h.token 0)) db ≡ false
      → IsSmall db.workspaces
      → IsSmall (with_row b c h db).workspaces
  unfolding byte_len
  with_row-IsSmall db room free small =
      let id = b.token_hash (h.token 0) in
      let row = row_of h.now (h.token 1) in
      let absent = free_absent id db free in
      let grown : sum_of row_size (insert id row db.workspaces) + 0
          ≡ sum_of row_size db.workspaces + 0 =
        subst
          (λ o.
            sum_of row_size (insert id row db.workspaces) + weight row_size o
            ≡ sum_of row_size db.workspaces + row_size row)
          absent (sum_of-insert row_size id row db.workspaces) in
      record {
        distinct = insert-Distinct id row db.workspaces small.distinct;
        count = ground (arith, length-insert_absent id row db.workspaces absent, room);
        bytes = omega (arith, grown, small.bytes);
      }

  create_row-keeps :
      (db : Database J) → IsSmall db.workspaces → IsSmall (create_row b c h db).1.workspaces
  unfolding create_row
  create_row-keeps db small =
      if_both (Keeps b {A = Workspace} c) (not c.begins || (not c.locks || not c.reads)) _ _ small
        (elim (Bool-cases (leb 1000 (length db.workspaces))) [
          | inl full ↦ rw (full) small
          | inr room ↦
              rw (room)
                (elim (Bool-cases (not c.updates || is_taken b c h (b.token_hash (h.token 0)) db)) [
                  | inl failed ↦ rw (failed) small
                  | inr free ↦ rw (free) (
                      commit-Keeps b c _ db (ok (with_row b c h db)) small (
                        ready_small b (with_row b c h db)
                          (with_row-IsSmall db room (ground (arith, free)) small)))
                ])
        ])

  touch_found-keeps :
      (id : String) (db : Database J)
      → IsSmall db.workspaces
      → IsSmall (touch_found b c h id db (live_row b h.now id db.workspaces)).1.workspaces
  touch_found-keeps id db small = elim (Option-cases (live_row b h.now id db.workspaces)) [
    | inl lapsed ↦ rw (lapsed) small
    | inr (r, live) ↦ rw (live) (
        same_text-IsSmall id r (renew b c h r) db.workspaces
          (live_row-lookup b h.now id db.workspaces r live) refl small)
  ]

  touch_row-keeps :
      (token : String) (db : Database J)
      → IsSmall db.workspaces
      → IsSmall (touch_row b c h token db).1.workspaces
  unfolding touch_row
  touch_row-keeps token db small =
      let touched = touch_found-keeps (b.token_hash token) db small in
      if_both (Keeps b {A = Unit {0}} c) c.updates _ _ touched
        (if_both (λ d. IsSmall d.workspaces) c.applies _ db touched small)

  expire_row-IsSmall :
      (id : String) (rows : Dict Row) → IsSmall rows → IsSmall (expire_row b c h id rows)
  expire_row-IsSmall id rows small = elim (Option-cases (lookup id rows)) [
    | inl absent ↦ rw (expire_row, absent) small
    | inr (r, found) ↦
        rw (expire_row, found) (same_text-IsSmall id r (expire h.now r) rows found refl small)
  ]

  clear_saved-keeps :
      (token : String) (db : Database J)
      → IsSmall db.workspaces
      → IsSmall (clear_saved b c h token db).1.workspaces
  unfolding clear_saved
  clear_saved-keeps token db small =
      expired (transaction b (record c { commits = true }) h.now token true (empty_out b c h) db) (
        transaction-Keeps b (record c { commits = true }) h.now token true (empty_out b c h) db
          small)
    where
      expired :
          (r : Result (Unit {0}) × Database J)
          → IsSmall r.1.workspaces
          → IsSmall (commit_expired b c h (b.token_hash token) db r).1.workspaces
      expired (err e, new) ready = small
      expired (ok u, new) ready =
          commit-Keeps b c tt db
            (ok (record new { workspaces = expire_row b c h (b.token_hash token) new.workspaces }))
            small (ready_small b _ (expire_row-IsSmall (b.token_hash token) new.workspaces ready))

-- One method: `Create`, `Touch` or `Clear`, or a transaction of any handler, at any time, with any statement
-- that fails. Transactions that write come one behind the other, since each locks the same row first.
pub data Call {S J : Type 0} (b : Backend S J) : Database J → Database J → Type 1 where
  creates : (c : Connection) (h : Ambient) (db : Database J) → Call b db (create_row b c h db).1
  touches :
      (c : Connection) (h : Ambient) (token : String) (db : Database J)
      → Call b db (touch_row b c h token db).1
  clears :
      (c : Connection) (h : Ambient) (token : String) (db : Database J)
      → Call b db (clear_saved b c h token db).1
  transacts :
      (A : Type 0) (c : Connection) (now : ℕ) (token : String) (write : Bool)
      (fn : String → Operation J A) (db : Database J)
      → Call b db (transaction b c now token write fn db).1

pub data Calls {S J : Type 0} (b : Backend S J) : Database J → Database J → Type 1 where
  stay : (db : Database J) → Calls b db db
  next : (x y z : Database J) → Calls b x y → Call b y z → Calls b x z

module _ {S J : Type 0} (b : Backend S J) where
  Call-IsSmall : (x y : Database J) → Call b x y → IsSmall x.workspaces → IsSmall y.workspaces
  Call-IsSmall x _ (creates c h _) small = create_row-keeps b c h x small
  Call-IsSmall x _ (touches c h token _) small = touch_row-keeps b c h token x small
  Call-IsSmall x _ (clears c h token _) small = clear_saved-keeps b c h token x small
  Call-IsSmall x _ (transacts A c now token write fn _) small =
      transaction-Keeps b c now token write fn x small

  -- From tables with at most 1000 workspaces under distinct keys, whose texts take at most 64 MiB together,
  -- every sequence of `Create`, `Touch`, `Clear` and transactions of any handlers leads to such tables,
  -- whichever statements fail, and whether or not a commit that ends in an error was carried out.
  pub Calls-IsSmall : (x y : Database J) → Calls b x y → IsSmall x.workspaces → IsSmall y.workspaces
  Calls-IsSmall x _ (stay _) small = small
  Calls-IsSmall x _ (next _ y z before last) small =
      Call-IsSmall y z last (Calls-IsSmall x y before small)
