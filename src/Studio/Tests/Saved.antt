-- ===== src/Studio/Tests/Saved.antt =====
-- Saved workspaces and transactions at concrete inputs.
use go_graphics.Studio.Handlers.{clear_saved}
use go_graphics.Studio.Handlers.Limits.{Calls-IsSmall, next, stay, transacts, clears}
use go_graphics.Studio.Handlers.Storage.{IsSmall}
use go_graphics.Common.{
  refl, ◌≡◌, String, ℕ, [], ◌∷◌, some, String-discrete, same, if◌then◌else◌, true, false, arith,
  ◌^◌,
}
use go_graphics.Common.Int.{pos}
use go_graphics.Common.Dict.{lookup, insert, retain, merge}
use go_graphics.Common.Texts.{byte_len}
use go_graphics.Publish.{pins, get}
use go_graphics.RenderJob.Model.{ok}
use go_graphics.Studio.Model.{Store, OpenWorkspace, Operation}
use go_graphics.Studio.Visits.{new_exploration, find, workspace, prune}
use go_graphics.Studio.Choosing.{choices}
use go_graphics.Studio.Entering.{add_sample, restored_sample}
use go_graphics.Studio.Samples.{test_services, test_ambient, test_recipe}
use go_graphics.Studio.Persistent.{Codec, SavedWorkspace, saved, encode_workspace, decode_workspace}
use go_graphics.Studio.Persistent.RoundTrip.{as_json, decode-encode}
use go_graphics.Studio.Transaction.{
  Backend, Database, Row, transaction, single_store, new_row, workspace_or, Connection,
}
use go_graphics.Studio.Transaction.Refinement.{transaction_lem, all_well}
use go_graphics.Common.Names.{contains}

abbrev saved_one : OpenWorkspace
saved_one = record (new_row "hash" "csrf") {
  explorations =
      (
        "first",
        add_sample test_services (restored_sample test_services "sample" test_recipe)
            (new_exploration "first" "pools" "" ""),
      )
      ∷ [];
}

abbrev codec_of : SavedWorkspace → SavedWorkspace → Codec
codec_of old new = record {
  marshal = λ v. ok "new";
  unmarshal = λ text. ok (if same text "old" then as_json old else as_json new);
  decode_recipe = λ raw. ok test_recipe;
}

decode-encode_example :
    decode_workspace (codec_of (saved saved_one) (saved saved_one)) "new" (new_row "hash" "csrf")
    ≡ ok saved_one
unfolding decode_workspace encode_workspace String-discrete lookup
decode-encode_example =
    decode-encode (codec_of (saved saved_one) (saved saved_one)) saved_one (new_row "hash" "csrf")
      "new" refl refl refl ((refl, refl, (refl, tt)), tt) (refl, tt) refl refl

abbrev restyling : String → Operation ℕ (Unit {0})
restyling k = choices test_services.queue (test_ambient 100) k "first" (pos 0) "flowing" ""

abbrev restyled_store : Store ℕ
restyled_store = (restyling "hash" (single_store "build" "hash" saved_one 0)).1

abbrev workspace_in : Store ℕ → OpenWorkspace
workspace_in s = workspace_or saved_one (lookup "hash" s.workspaces)

abbrev backend : Backend (Unit {0}) ℕ
backend = record {
  services = test_services;
  codec = codec_of (saved saved_one) (saved (workspace_in restyled_store));
  token_hash = λ token. "hash";
  failed = λ j. false;
  interests = λ j id. "stale" ∷ [];
  build = "build";
}

abbrev database : Database ℕ
database = record {
  workspaces =
      ("hash", record { csrf = "csrf"; text = "old"; expires = 10 ^ 20; touched = 0 }) ∷ [];
  pins = [];
  queue = 0;
}

abbrev only_row : Row
only_row = record { csrf = "csrf"; text = "old"; expires = 10 ^ 20; touched = 0 }

transaction_lem_example :
    ((transaction backend all_well 7 "token" true restyling database).0 ≡ ok tt)
    × ((q : Row) × (lookup "hash"
            (transaction backend all_well 7 "token" true restyling database).1.workspaces
          ≡ some q)
        × (decode_workspace backend.codec q.text (new_row "hash" q.csrf)
            ≡ ok (record (new_row "hash" q.csrf) {
              explorations = (workspace_in restyled_store).explorations;
              entries = (workspace_in restyled_store).entries;
            })))
unfolding decode_workspace encode_workspace choices find workspace prune lookup insert retain merge
    pins get byte_len contains String-discrete
transaction_lem_example =
    transaction_lem backend 7 "token" "new" restyling database only_row saved_one
      (workspace_in restyled_store) restyled_store 0 tt refl refl refl refl refl refl refl refl refl
      refl (ground arith) ((refl, refl, (refl, tt)), tt) (refl, tt)

abbrev lossy : Connection
lossy = record all_well { commits = false; applies = true }

database-IsSmall : IsSmall database.workspaces
unfolding byte_len lookup
database-IsSmall = record { distinct = (refl, tt); count = omega arith; bytes = omega arith }

abbrev restyled_database : Database ℕ
restyled_database = (transaction backend lossy 7 "token" true restyling database).1

Calls-IsSmall_example :
    IsSmall (clear_saved backend all_well (test_ambient 100) "token" restyled_database).1.workspaces
Calls-IsSmall_example =
    Calls-IsSmall backend database
      (clear_saved backend all_well (test_ambient 100) "token" restyled_database).1
      (next database restyled_database _
        (next database database _ (stay database)
          (transacts (Unit {0}) lossy 7 "token" true restyling database))
        (clears all_well (test_ambient 100) "token" restyled_database))
      database-IsSmall
