-- ===== src/Studio/Transaction/Refinement.antt =====
-- A transaction is the handler on the saved workspace.
use go_graphics.Common.{
  refl, ◌≡◌, String, true, false, some, arith, ap, ◌∙◌, ℕ, inl, inr, same, ◌+◌, ◌≤◌, ◌*◌, ◌^◌,
  Option-cases, ltb,
}
use go_graphics.Common.Dict.{lookup, Distinct, Dict, lookup-insert_self}
use go_graphics.Common.Each.{Each}
use go_graphics.RenderJob.Model.{ok}
use go_graphics.Studio.Model.{Store, Operation, OpenWorkspace}
use go_graphics.Studio.Persistent.{encode_workspace, decode_workspace, saved}
use go_graphics.Studio.Persistent.RoundTrip.{IsStorable, as_json, decode-encode}
use go_graphics.Studio.Transaction.{
  Database, Connection, Backend, transaction, run_transaction, new_row, Row, hide_state, live_row,
  single_store, cancel_all, obsolete, other_size, byte_len, store_back, written, set_data,
}

-- Every statement is carried out.
abbrev pub all_well : Connection
all_well = record {
  begins = true;
  locks = true;
  reads = true;
  sums = true;
  updates = true;
  unpins = true;
  pins = true;
  interests = true;
  notifies = true;
  commits = true;
  applies = true;
}

module _ {S J : Type 0} (b : Backend S J) where
  pub live_row-lookup :
      (now : ℕ) (id : String) (rows : Dict Row) (r : Row)
      → live_row b now id rows ≡ some r
      → lookup id rows ≡ some r
  live_row-lookup now id rows r = elim (Option-cases (lookup id rows)) [
    | inl absent ↦ rw (live_row, absent) (λ e. absurd (ground arith))
    | inr (q, found) ↦ rw (live_row, found) (λ e. ground arith)
  ]

  lookup-set_data :
      (id text : String) (rows : Dict Row) (r : Row)
      → lookup id rows ≡ some r
      → lookup id (set_data id text rows) ≡ some (record r { text = text })
  lookup-set_data id text rows r found =
      rw (set_data, found) (lookup-insert_self id (record r { text = text }) rows)

  stored :
      (id text : String) (v : OpenWorkspace) (j : J) (db : Database J)
      → b.failed (cancel_all b id (obsolete b id v j) j) ≡ false
      → encode_workspace b.codec v ≡ ok text
      → other_size id db.workspaces + byte_len text ≤ 64 * 2 ^ 20
      → store_back b all_well true id v j db ≡ ok (written b id text v j db)
  stored id text v j db fine encoded small =
      let fits : ltb (64 * 2 ^ 20) (other_size id db.workspaces + byte_len text) ≡ false =
        ground arith in
      rw (encoded, fits, fine) refl

module _ {S J : Type 0} (b : Backend S J) {A : Type 0} where
  ran :
      (now : ℕ) (token text : String) (fn : String → Operation J A) (db : Database J) (r : Row)
      (w v : OpenWorkspace) (s : Store J) (j : J) (a : A)
      → live_row b now (b.token_hash token) db.workspaces ≡ some r
      → decode_workspace b.codec r.text (new_row (b.token_hash token) r.csrf) ≡ ok w
      → fn (b.token_hash token) (single_store b.build (b.token_hash token) w db.queue) ≡ (ok a, s)
      → lookup (b.token_hash token) s.workspaces ≡ some v
      → s.jobs ≡ some j
      → b.failed j ≡ false
      → store_back b all_well true (b.token_hash token) v j db
        ≡ ok (written b (b.token_hash token) text v j db)
      → run_transaction b all_well now token true fn db
        ≡ (ok a, written b (b.token_hash token) text v j db)
  ran now token text fn db r w v s j a live loads runs held queued fine stored_well =
      rw (live, loads, runs, queued, fine, held, stored_well) refl

  -- Let a workspace's row be live and load as `w`, and let the handler succeed on it and leave `v`, whose
  -- explorations have distinct keys, their own names, and recipes that decode from their canonical texts. Let
  -- `v` be written as a text that is not empty and from which the JSON decoder gives the saved form back, and
  -- let that text and the other rows take at most 64 MiB. If every statement is carried out and the queue
  -- records no error, neither in the handler nor when the interests that `v` has lost are cancelled, then the
  -- transaction answers as the handler does, and its row loads as the explorations and entries of `v`.
  pub transaction_lem :
      (now : ℕ) (token text : String) (fn : String → Operation J A) (db : Database J) (r : Row)
      (w v : OpenWorkspace) (s : Store J) (j : J) (a : A)
      → live_row b now (b.token_hash token) db.workspaces ≡ some r
      → decode_workspace b.codec r.text (new_row (b.token_hash token) r.csrf) ≡ ok w
      → fn (b.token_hash token) (single_store b.build (b.token_hash token) w db.queue) ≡ (ok a, s)
      → lookup (b.token_hash token) s.workspaces ≡ some v
      → s.jobs ≡ some j
      → b.failed j ≡ false
      → b.failed (cancel_all b (b.token_hash token) (obsolete b (b.token_hash token) v j) j) ≡ false
      → encode_workspace b.codec v ≡ ok text
      → b.codec.unmarshal text ≡ ok (as_json (saved v))
      → same text "" ≡ false
      → other_size (b.token_hash token) db.workspaces + byte_len text ≤ 64 * 2 ^ 20
      → Each (IsStorable b.codec) v.explorations
      → Distinct v.explorations
      → ((transaction b all_well now token true fn db).0 ≡ ok a)
        × ((q : Row) × (lookup
                (b.token_hash token)
                (transaction b all_well now token true fn db).1.workspaces
              ≡ some q)
            × (decode_workspace b.codec q.text (new_row (b.token_hash token) q.csrf)
                ≡ ok (record (new_row (b.token_hash token) q.csrf) {
                  explorations = v.explorations;
                  entries = v.entries;
                })))
  unfolding transaction
  transaction_lem now token text fn db r w v s j a live loads runs held queued fine still_fine
        encoded decoded full small storable d =
      let done =
        ran now token text fn db r w v s j a live loads runs held queued fine
          (stored b (b.token_hash token) text v j db still_fine encoded small) in
      (
        ap (λ z. hide_state z.0) done,
        (
          record r { text = text },
          ap (λ z. lookup (b.token_hash token) z.1.workspaces) done
              ∙ lookup-set_data b (b.token_hash token) text db.workspaces r
                  (live_row-lookup b now (b.token_hash token) db.workspaces r live),
          decode-encode b.codec v (new_row (b.token_hash token) r.csrf) text encoded decoded full
              storable d refl refl,
        ),
      )
