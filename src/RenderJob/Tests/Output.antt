-- ===== src/RenderJob/Tests/Output.antt =====
-- A renderer that writes an image in two calls.
use go_graphics.Common.{refl, [], ◌∷◌, ℕ, true, none, some, List, ◌≡◌, length, ◌≤◌, arith}
use go_graphics.RenderJob.Samples.{publisher, request}
use go_graphics.RenderJob.Transport.{Chunk, write_all, write, new_writer}
use go_graphics.RenderJob.Worker.{Png, execute}
use go_graphics.RenderJob.Model.{ok, max_image}
use go_graphics.RenderJob.Protocol.{Recipe, Rendition}
use go_graphics.RenderJob.Transport.Limit.{execute_lem}

abbrev decoder : Png
decoder = record { config = λ b. some (4, 3); decodes = λ b. true }

abbrev chunks : List Chunk
chunks =
    record { bytes = 1 ∷ 2 ∷ []; taken = 2; error = none }
    ∷ record { bytes = 3 ∷ []; taken = 1; error = none }
    ∷ []

rendered :
    execute publisher decoder (request "first") (ok (write_all (new_writer max_image) chunks).out)
    ≡ ok (1 ∷ 2 ∷ 3 ∷ [])
unfolding execute write_all write
rendered = refl

execute_lem_example :
    ((1 ∷ 2 ∷ 3 ∷ []) ≡ (write_all (new_writer max_image) chunks).out)
    × (length {A = ℕ} (1 ∷ 2 ∷ 3 ∷ []) ≤ max_image)
    × ((r : Recipe) × (t : Rendition) × (publisher.validate "first" ≡ ok r)
        × (publisher.tier r.id "explore" ≡ ok t)
        × (decoder.config (1 ∷ 2 ∷ 3 ∷ []) ≡ some (t.width, t.height))
        × (decoder.decodes (1 ∷ 2 ∷ 3 ∷ []) ≡ true))
execute_lem_example =
    execute_lem publisher decoder (request "first") chunks (1 ∷ 2 ∷ 3 ∷ [])
      (omega arith, (omega arith, tt)) rendered
