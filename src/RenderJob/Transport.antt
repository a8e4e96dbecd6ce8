-- ===== src/RenderJob/Transport.antt =====
-- internal/renderjob/protocol.go: `limitWriter`, through which every renderer's output passes.
pub mod Limit
use go_graphics.Common.{
  ℕ, zero, suc, ◌-◌, Bool, true, false, Option, none, some, List, [], ◌∷◌, ◌++◌, if◌then◌else◌, ltb,
  length,
}
use go_graphics.RenderJob.Model.{Error, failure}

-- `out` is what the writer behind it has taken.
pub record LimitWriter : Type 0 where
  pub left : ℕ
  pub cancelled : Bool
  pub exceeded : Bool
  pub out : List ℕ

-- `p[:n]`
abbrev pub take {ℓ} : {A : Type ℓ} → ℕ → List A → List A
take zero xs = []
take (suc n) [] = []
take (suc n) (x ∷ xs) = x ∷ take n xs

-- One call, and what the writer behind it answers: how many bytes it took, and its error.
pub record Chunk : Type 0 where
  pub bytes : List ℕ
  pub taken : ℕ
  pub error : Option Error

-- `limitWriter.Write`
unfoldable pub write : LimitWriter → Chunk → LimitWriter × ℕ × Option Error
write w c =
    if ltb w.left (length c.bytes)
    then (
      record w { exceeded = true; cancelled = true },
      0,
      some (failure "renderer output exceeded limit"),
    )
    else (
      record w { left = w.left - c.taken; out = w.out ++ take c.taken c.bytes },
      c.taken,
      c.error,
    )

-- The calls that a renderer makes, whatever it makes of their answers.
unfoldable pub write_all : LimitWriter → List Chunk → LimitWriter
write_all w [] = w
write_all w (c ∷ rest) = write_all (write w c).0 rest

-- `&limitWriter{w: &b, left: MaxImage, cancel: cancel}`
abbrev pub new_writer : ℕ → LimitWriter
new_writer limit = record { left = limit; cancelled = false; exceeded = false; out = [] }
