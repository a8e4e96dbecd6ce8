-- ===== src/Lib.antt =====
-- go-graphics draws generative artworks on demand: the studio in which visitors explore them, the render
-- jobs, and the limits of the service.
--
-- The program. Visitors of a web service (internal/web, internal/studio) ask for images of recipes. A
-- manager (internal/renderjob/manager.go) keeps one queue, one worker and a private cache of PNG files.
-- `Admit` takes a batch of at most four requests, checks them with internal/publish, and joins or creates
-- jobs, which are named by the digest of recipe, rendition and release. The worker takes the jobs in
-- turns, calls a renderer outside the lock, and publishes the image into the cache, from which it evicts
-- old files. `Open` lends files to downloads, which the cache must not evict. `Cancel` leaves a job.
-- internal/limits checks the policies that the service reads at its start. The studio
-- (internal/studio/studio.go) keeps each visitor's explorations: batches of recipes, which it plans with
-- internal/explore and admits to the render jobs, choices and favourites; persistent.go runs the same
-- handlers on a workspace that it reads from PostgreSQL and writes back in one transaction. Traits
-- (internal/trait) are the weighted choices of an artwork, knobs (internal/opt) its settings.
--
-- The files.
--   Common         names from the libraries, and Tests, Lists, Texts, Dict and Each (Go's maps), Names
--                  (Go's sets of names), Int (signed integers over the native numbers)
--   RenderJob      internal/renderjob
--     Model        the types of manager.go, and `Request` of protocol.go
--     Protocol     `Request.Validate`, and what it uses of internal/publish
--     Cache        `remove`, `evictOldest`, `prune`, `publish`
--     Admission    `Admit`: identify (the loop before the lock), tidy_queue, survey (the loop that
--                  counts), exceeds, enroll (the loop that writes), composed by place and admit
--     Leases       `Open` (open_image) and `Lease.Close` (close)
--     Visitors     `Enable`, `Status`, `Cancel`, `Counts`
--     Worker       `work`: begin is the locked section before the rendering, finish the one behind it;
--                  `execute`, and `Close` (shut_down)
--     Start        `New` (check_settings, new) and `reconcile`
--     Transport    `limitWriter` of protocol.go
--     Sound        the invariants of jobs and queue, and that each operation keeps them
--     System       the step relation of all the locked sections, and its invariant
--     Samples, Tests  the properties at concrete inputs
--   Limits         internal/limits/policy.go
--   Artwork        the record `Recipe` of internal/artwork/recipe.go
--   Publish        internal/publish/catalog.go: the catalogue, `Get`, `Pins`, `Tier`
--   Opt            internal/opt/opt.go: `Apply` (apply_knobs) with the loop of `validate` (collect);
--                  Applying has what it accepts and returns
--   Trait          internal/trait/trait.go: dimensions, `draw`, `Derive`, `Boost`
--     Schemas      `Validate`, whose errors are the data type Fault, `NameSuffix`, `Format` (parts), `Is`
--     Options      internal/trait/options.go: `Configure`, `SetOverrides`, `Resolve`; add_flags is `Flags`
--     Drawing, Total  what can be drawn, and when something can
--   Explore        internal/explore/explore.go: `Candidate`, and `Public` as search_from (its loop) and
--                  propose (the body that makes a candidate)
--     Breeding     `LocalBreed`
--     Fresh, Public  the end of the search, and what it finds
--   Studio         internal/studio/studio.go
--     Model        the types; `exploration` and `workspace` are OpenExploration and OpenWorkspace. An
--                  `Operation` takes the store to an answer or an error and the store left behind
--     Visits       `Create`, `prune`, `workspace`, `Session`, `Start`, `find`, `Clear`
--     View         `snapshot`, `Get` (get_exploration), `Favourites`, `Recovery`
--     Generation   `Generate` and `generate`: Planning turns a selection into recipes, generate_in
--                  replays or admits, record_batch and extend write the batch
--     Choosing     `Choices`, `Favourite` (set_favourite), `Cancel` (cancel_batch), `Download`, `Retry`
--     Entering     `Enter` and `Restore`
--     System       the step relation of all the handlers, and its invariant
--     Sound        the limits, and that each handler keeps them
--     Succeeding, Refusing  what follows from the success or the failure of a handler
--     Persistent   persistent.go: `encodeWorkspace` and `decodeWorkspace`
--     Transaction  `transaction`: run_transaction up to the handler's call, store_back and run_writes for
--                  the statements behind it, commit
--     Handlers     the methods of `Persistent`: `Create` (create_row), `Session` (read_session), `Touch`
--                  (touch_row), `Favourite` (keep_image), `Clear` (clear_saved), and the others (…_saved);
--                  Storage and Limits have what bounds the tables
--     Samples, Tests  the properties at concrete inputs
--
-- The model. A state is a record, an operation a function from the state to the state and its answer,
-- an error a value. One definition stands for one locked section, so every order of calls from any number
-- of goroutines is a sequence of steps of RenderJob.System; the worker's two sections are two steps, with
-- whatever comes between. A Go map is an association list with distinct keys, and a loop over it goes in the
-- list's order; the theorems hold for every list, so for every order. A pointer to a job is an address
-- that is given out once: this is how the worker notices that its job was replaced. Times are nanoseconds,
-- as natural numbers, with one reading of the clock in each section. The counters bytes, refs and open are
-- integers without bounds: the theorems bound them far below 2^63. The product of free blocks and
-- block size, and the sum beside it, wrap at 2^64 as `uint64` does. The directory is a table from id to the
-- bytes of `<id>.png`.
--
-- In the studio a pointer into the store is the pair of keys under which the store holds the value, and a
-- write through it is `save`. The queue is the interface `Jobs` over a state of any type; the parts of
-- internal/publish and internal/explore that rest on the sketches are fields of `Services`. A call reads
-- one clock, a stream of fresh tokens and eight random bytes, which are the record Ambient. The statuses
-- and favourites that only a snapshot fills in are empty in the store.
--
-- A transaction works on its own copy of the tables, which takes the place of the old ones only if its
-- commit is carried out. A statement that fails before that leaves the old tables: PostgreSQL rolls back, and
-- that is how the model is built, not a result. A commit that ends in an error may have been carried out
-- (`applies`). Transactions that write lock the row of art_control first, and so come one behind the other.
--
-- In Opt a knob holds the value behind its pointer, and the record Numbers has the tests of floating-point
-- numbers and the formats of `fmt`. Floating-point numbers in Trait are a type with the record Float of
-- operations; all that any theorem assumes of them is that zero is not positive. The generator for a seed
-- is the stream of the numbers that it yields. A panic in drawing is `none`, and `err (failure "panic")` as
-- the answer of `Public`.
--
-- Parameters. The operating system's answers during a section are the record Host: whether a file can be
-- removed or opened, the free space, whether a new file was written, and SHA-256. Publisher stands for
-- publish.Validate, publish.Tier and Recipe.Key, Png for the decoder of image/png, Decoder for
-- encoding/json. Codec stands for encoding/json on saved workspaces and for artwork.Decode, Connection
-- for the statements that the database carries out, Backend for the hash of a token and the queue inside a
-- transaction. The renderer is the result that it returns, and in Transport the calls of `Write` that it
-- makes.
--
-- Fuel. The loops that evict (shrink, make_room) run on the number of entries, which is enough since
-- each round removes one or ends; the lemmas shrink-exits and make_room-exits are about that. The search of
-- `Public` runs on the 128 attempts that the code itself allows. All the other loops are structural
-- recursion.
--
-- Not modelled: logs, the channels wake and done beyond the flag that a wake-up is due, the
-- temporary file of `publish`, which ends renamed or removed, and the time between reading a file and its
-- removal by another process. The rest of the repository is not modelled: the queue in
-- PostgreSQL (internal/persistence), the schemas and configurations of the sketches, on which the rest of
-- the catalogue depends, the web handlers, and the drawing code, which computes in floating point.
pub mod Common
pub mod Artwork
pub mod Opt
pub mod Publish
pub mod Trait
pub mod Explore
pub mod Studio
pub mod Limits
pub mod RenderJob
