-- ===== src/RenderJob/Transport/Limit.antt =====
-- `limitWriter` and `execute`: the bytes that a renderer gets through.
use go_graphics.Common.{
  none, some, zero, suc, if◌then◌else◌, refl, [], ◌∷◌, ℕ, ◌≤◌, List, length, All, ◌+◌, ◌≡◌, arith,
  suc, length-append, some, true, Option, sym, subst, Bool-cases, inr, inl,
}
use go_graphics.RenderJob.Transport.{write_all, write, Chunk, LimitWriter, take, new_writer}
use go_graphics.RenderJob.Worker.{execute, Png, has_size}
use go_graphics.RenderJob.Protocol.{Publisher, Recipe, Rendition, bind_ok}
use go_graphics.RenderJob.Model.{Request, ok, max_image, err, failure}

-- `io.Writer`: `0 <= n <= len(p)`.
abbrev pub IsHonest : Chunk → Type 0
IsHonest c = c.taken ≤ length c.bytes

length-take : {A : Type 0} (n : ℕ) (xs : List A) → n ≤ length xs → length (take n xs) ≡ n
length-take zero xs h = refl
length-take (suc n) [] h = absurd (omega (arith, h))
length-take (suc n) (x ∷ xs) h = omega (arith, length-take n xs (omega (arith, h)))

write-balance :
    (limit : ℕ) (w : LimitWriter) (c : Chunk)
    → IsHonest c
    → w.left + length w.out ≡ limit
    → (write w c).0.left + length (write w c).0.out ≡ limit
unfolding write
write-balance limit w c h e =
    ground (arith, length-append w.out (take c.taken c.bytes), length-take c.taken c.bytes h)

write_all-balance :
    (limit : ℕ) (w : LimitWriter) (cs : List Chunk)
    → All IsHonest cs
    → w.left + length w.out ≡ limit
    → (write_all w cs).left + length (write_all w cs).out ≡ limit
unfolding write_all
write_all-balance limit w [] h e = e
write_all-balance limit w (c ∷ cs) (h, hs) e =
    write_all-balance limit (write w c).0 cs hs (write-balance limit w c h e)

sized : (o : Option (ℕ × ℕ)) (t : Rendition) → has_size o t ≡ true → o ≡ some (t.width, t.height)
sized none t e = absurd (ground arith)
sized (some (w, h)) t e = ground arith

passed :
    (png : Png) (t : Rendition) (o b : List ℕ)
    → (if has_size (png.config o) t
        then (if png.decodes o then ok o else err (failure "png"))
        else err (failure "invalid renderer dimensions"))
      ≡ ok b
    → (o ≡ b) × (has_size (png.config o) t ≡ true) × (png.decodes o ≡ true)
passed png t o b e = elim (Bool-cases (has_size (png.config o) t)) [
  | inr wrong ↦ absurd (ground (arith, wrong, e))
  | inl fits ↦ elim (Bool-cases (png.decodes o)) [
    | inr broken ↦ absurd (ground (arith, fits, broken, e))
    | inl whole ↦ (ground (arith, fits, whole, e), fits, whole)
  ]
]

-- If every writer takes at most what it is given, an image that `execute` lets through after any
-- calls of `limitWriter.Write` is exactly what the writer took, is at most 16 MiB large, and
-- decodes with the width and the height of the tier that the request names.
pub execute_lem :
    (p : Publisher) (png : Png) (q : Request) (cs : List Chunk) (b : List ℕ)
    → All IsHonest cs
    → execute p png q (ok (write_all (new_writer max_image) cs).out) ≡ ok b
    → (b ≡ (write_all (new_writer max_image) cs).out)
      × (length b ≤ max_image)
      × ((r : Recipe) × (t : Rendition) × (p.validate q.recipe ≡ ok r)
          × (p.tier r.id q.tier ≡ ok t)
          × (png.config b ≡ some (t.width, t.height))
          × (png.decodes b ≡ true))
unfolding execute
execute_lem p png q cs b h e =
    let o = (write_all (new_writer max_image) cs).out in
    let (r, v, e2) = bind_ok (p.validate q.recipe) _ b e in
    let (t, g, e3) = bind_ok (p.tier r.id q.tier) _ b e2 in
    let (same_bytes, fits, whole) = passed png t o b e3 in
    let n = write_all-balance max_image (new_writer max_image) cs h (omega arith) in
    (
      sym same_bytes,
      subst (λ x. length x ≤ max_image) same_bytes (omega (arith, n)),
      (
        r,
        t,
        v,
        g,
        subst (λ x. png.config x ≡ some (t.width, t.height)) same_bytes
            (sized (png.config o) t fits),
        subst (λ x. png.decodes x ≡ true) same_bytes whole,
      ),
    )
