-- ===== src/Explore/Public.antt =====
-- What `Public` returns.
use go_graphics.Common.Int.{ℤ, pos, pos_part, ltb_ℤ}
use go_graphics.Common.{
  refl, ◌≡◌, ℕ, suc, zero, ◌≤◌, Bool, true, false, Option, some, List, [], ◌∷◌, ◌++◌, arith, sym,
  ◌∙◌, subst, length, leb, All, Bool-cases, Option-cases, inl, inr, ◌==◌, ◌||◌, map, some_inj,
  length-append, String, ap, if_both, ltb, ◌&&◌, none, if◌then◌else◌, not,
}
use go_graphics.Explore.{
  Candidate, is_seen, plus_64, search_from, Float, public, Schema, as_result, propose, Set, ok,
  guided, is_valid, guide, all_parents_valid, drawn, derive, with_pins, neighbor_from, boost,
  Result, boosted_from, parent_at, err, failure,
}
use go_graphics.Explore.Fresh.{search_full, search_skip, search_take, search_none, search_four}
use go_graphics.Common.Each.{Each, Each-merge}
use go_graphics.Common.Dict.{Distinct, lookup}
use go_graphics.RenderJob.Protocol.{ok_inj}

abbrev pub repeats : List ℕ → Bool
repeats [] = false
repeats (n ∷ rest) = is_seen n rest || repeats rest

abbrev pub seeds : List Candidate → List ℕ
seeds out = map (λ c. c.seed) out

module _ {A : Type 0} (P : A → Type 0) where
  All-append : (xs : List A) (x : A) → All P xs → P x → All P (xs ++ (x ∷ []))
  All-append [] x p q = (q, tt)
  All-append (y ∷ xs) x p q = (p.0, All-append xs x p.1 q)

is_seen-append :
    (n : ℕ) (out : List Candidate) (c : Candidate)
    → is_seen n (seeds (out ++ (c ∷ []))) ≡ (is_seen n (seeds out) || (c.seed == n))
unfolding is_seen
is_seen-append n [] c = ground arith
is_seen-append n (d ∷ out) c = ground (arith, is_seen-append n out c)

repeats_append :
    (out : List Candidate) (c : Candidate)
    → repeats (seeds out) ≡ false
    → is_seen c.seed (seeds out) ≡ false
    → repeats (seeds (out ++ (c ∷ []))) ≡ false
unfolding is_seen
repeats_append [] c once new = ground arith
repeats_append (d ∷ out) c once new =
    ground (arith, repeats_append out c, is_seen-append d.seed out c)

unseen :
    (n : ℕ) (seen : List ℕ) (out : List Candidate)
    → is_seen n seen ≡ false
    → All (λ c. is_seen c.seed seen ≡ true) out
    → is_seen n (seeds out) ≡ false
unfolding is_seen
unseen n seen [] e inside = refl
unseen n seen (c ∷ out) e inside = ground (arith, e, inside.0, unseen n seen out e inside.1)

seen_more :
    (n : ℕ) (seen : List ℕ) (out : List Candidate)
    → All (λ c. is_seen c.seed seen ≡ true) out
    → All (λ c. is_seen c.seed (n ∷ seen) ≡ true) out
unfolding is_seen
seen_more n seen [] inside = tt
seen_more n seen (c ∷ out) inside = (ground (arith, inside.0), seen_more n seen out inside.1)

seen_first : (n m : ℕ) (seen : List ℕ) → m ≡ n → is_seen m (n ∷ seen) ≡ true
unfolding is_seen
seen_first n m seen e = ground arith

module _ (recent : List ℕ) (P : Candidate → Type 0) (make : ℕ → ℕ → Option Candidate) (seed : ℕ)
    (makes : (i n : ℕ) (c : Candidate) → make i n ≡ some c → (c.seed ≡ n) × P c) where
  abbrev pub IsFresh : List Candidate → Type 0
  IsFresh out =
      (length out ≤ 4)
      × All (λ c. is_seen c.seed recent ≡ false) out
      × (repeats (seeds out) ≡ false)
      × All P out

  covers_more :
      (m : ℕ) (seen : List ℕ)
      → ((n : ℕ) → is_seen n seen ≡ false → is_seen n recent ≡ false)
      → (n : ℕ) → is_seen n (m ∷ seen) ≡ false
      → is_seen n recent ≡ false
  unfolding is_seen
  covers_more m seen covers n e = covers n (ground (arith, e))

  search-IsFresh :
      (fuel attempt : ℕ) (seen : List ℕ) (out res : List Candidate)
      → ((n : ℕ) → is_seen n seen ≡ false → is_seen n recent ≡ false)
      → All (λ c. is_seen c.seed seen ≡ true) out
      → IsFresh out
      → search_from make seed fuel attempt seen out ≡ some res
      → IsFresh res
  unfolding search_from
  search-IsFresh zero attempt seen out res covers inside fresh e = subst IsFresh (some_inj e) fresh
  search-IsFresh (suc fuel) attempt seen out res covers inside fresh e =
      elim (Bool-cases (leb 4 (length out))) [
        | inl full ↦
            subst IsFresh (some_inj (sym (search_full make seed fuel attempt seen out full) ∙ e))
              fresh
        | inr more ↦ elim (Bool-cases (is_seen (plus_64 seed attempt) seen)) [
          | inl old ↦
              search-IsFresh fuel (suc attempt) seen out res covers inside fresh
                (sym (search_skip make seed fuel attempt seen out more old) ∙ e)
          | inr new ↦ elim (Option-cases (make (length out) (plus_64 seed attempt))) [
            | inl panic ↦ absurd (
                ground
                  (arith, sym (search_none make seed fuel attempt seen out more new panic) ∙ e))
            | inr (c, made) ↦
                let good = makes (length out) (plus_64 seed attempt) c made in
                search-IsFresh fuel (suc attempt) (plus_64 seed attempt ∷ seen) (out ++ (c ∷ []))
                  res (covers_more (plus_64 seed attempt) seen covers)
                  (All-append (λ d. is_seen d.seed (plus_64 seed attempt ∷ seen) ≡ true) out c
                    (seen_more (plus_64 seed attempt) seen out inside)
                    (seen_first (plus_64 seed attempt) c.seed seen good.0))
                  (
                    ground (arith, length-append out (c ∷ []), more),
                    All-append (λ d. is_seen d.seed recent ≡ false) out c fresh.1
                        (covers c.seed (subst (λ n. is_seen n seen ≡ false) (sym good.0) new)),
                    repeats_append out c fresh.2 (
                        unseen c.seed seen out
                          (subst (λ n. is_seen n seen ≡ false) (sym good.0) new) inside),
                    All-append P out c fresh.3 good.1,
                  )
                  (sym (search_take make seed fuel attempt seen out c more new made) ∙ e)
          ]
        ]
      ]

module _ {F : Type 0} (fl : Float F) (uniforms : ℕ → ℕ → F) (three : F) where
  -- The candidate has all the pins.
  abbrev pub IsPinned : Set → Candidate → Type 0
  IsPinned pins c = Each (λ k v. lookup k c.traits ≡ some v) pins

  guided_seed :
      (s boosted : Schema F) (pins : Set) (parents : List Candidate) (round i : ℕ) (c d : Candidate)
      → guided fl uniforms three s boosted pins parents round i c ≡ some d
      → d.seed ≡ c.seed
  guided_seed s boosted pins parents round i c d =
      if_both (λ o. o ≡ some d → d.seed ≡ c.seed) (ltb 0 (length parents) && ltb i 2) _ _
        (near (parent_at fl uniforms three round i parents))
        (if_both (λ o. o ≡ some d → d.seed ≡ c.seed) (ltb 0 (length parents) && (i == 2)) _ _
          (raised (derive fl (uniforms c.seed) boosted)) (λ e. ap (λ x. x.seed) (sym (some_inj e))))
    where
      near :
          (o : Option Candidate)
          → neighbor_from fl uniforms three s pins c o ≡ some d
          → d.seed ≡ c.seed
      near none e = absurd (ground arith)
      near (some p) e = ap (λ x. x.seed) (sym (some_inj e))

      raised : (o : Option Set) → boosted_from fl uniforms three c o ≡ some d → d.seed ≡ c.seed
      raised none e = absurd (ground arith)
      raised (some set) e = ap (λ x. x.seed) (sym (some_inj e))

  with_pins_lem :
      (pins : Set) (o : Option Candidate) (d : Candidate)
      → Distinct pins
      → with_pins fl uniforms three pins o ≡ some d
      → ((c : Candidate) × (o ≡ some c) × (d.seed ≡ c.seed)) × IsPinned pins d
  with_pins_lem pins none d distinct e = absurd (ground arith)
  with_pins_lem pins (some c) d distinct e =
      subst (λ x. ((y : Candidate) × (some c ≡ some y) × (x.seed ≡ y.seed)) × IsPinned pins x)
        (some_inj e) ((c, refl, refl), Each-merge pins c.traits distinct)

  guide_seed :
      (s boosted : Schema F) (pins : Set) (parents : List Candidate) (round i n : ℕ)
      (o : Option Set) (d : Candidate)
      → guide fl uniforms three s boosted pins parents round i (drawn fl uniforms three n o)
        ≡ some d
      → d.seed ≡ n
  guide_seed s boosted pins parents round i n none d e = absurd (ground arith)
  guide_seed s boosted pins parents round i n (some set) d e =
      guided_seed s boosted pins parents round i _ d e

  propose_lem :
      (s boosted : Schema F) (pins : Set) (parents : List Candidate) (round i n : ℕ) (d : Candidate)
      → Distinct pins
      → propose fl uniforms three s boosted pins parents round i n ≡ some d
      → (d.seed ≡ n) × IsPinned pins d
  unfolding propose
  propose_lem s boosted pins parents round i n d distinct e =
      let ((c, made, same_seed), pinned) = with_pins_lem pins _ d distinct e in
      (
        same_seed ∙ guide_seed s boosted pins parents round i n (derive fl (uniforms n) s) c made,
        pinned,
      )

  searched :
      (o : Option (List Candidate)) (out : List Candidate)
      → as_result fl uniforms three o ≡ ok out
      → o ≡ some out
  searched none out e = absurd (ground arith)
  searched (some c) out e = ap some (ok_inj e)

  -- If `Public` returns candidates, they are at most four, their seeds are distinct and none of them is
  -- recent, and every candidate has all the pins, whatever its parents, the draws and the weights.
  pub public_lem :
      (s : Schema F) (pins : Set) (parents : List Candidate) (seed : ℕ) (round : ℤ)
      (recent : List ℕ) (out : List Candidate)
      → Distinct pins
      → public fl uniforms three s pins parents seed round recent ≡ ok out
      → (length out ≤ 4)
        × All (λ c. is_seen c.seed recent ≡ false) out
        × (repeats (seeds out) ≡ false)
        × All (IsPinned pins) out
  unfolding public
  public_lem s pins parents seed round recent out distinct e =
      let boosted = boost fl (map (λ p. p.traits) parents) three s in
      let e1 =
        passed (ltb 4 (length parents) || (ltb 128 (length recent) || ltb_ℤ round (pos 0))) _ _ e in
      let e2 = passed (not (is_valid fl uniforms three s pins)) _ _ e1 in
      let e3 = passed (not (all_parents_valid fl uniforms three s parents)) _ _ e2 in
      search-IsFresh recent (IsPinned pins)
        (propose fl uniforms three s boosted pins parents (pos_part round)) seed
        (λ i n c. propose_lem s boosted pins parents (pos_part round) i n c distinct) 128 0 recent
        [] out (λ n f. f) tt (omega arith, tt, refl, tt) (searched _ out e3)
    where
      passed :
          (b : Bool) (t : String) (r : Result (List Candidate))
          → (if b then err (failure t) else r) ≡ ok out
          → r ≡ ok out
      passed true t r f = absurd (ground arith)
      passed false t r f = f

  -- If there are at most four parents and 124 recent seeds, pins and parents are valid, and no draw
  -- panics, then `Public` returns exactly four candidates: the 128 attempts suffice.
  pub public_four :
      (s : Schema F) (pins : Set) (parents : List Candidate) (seed round : ℕ) (recent : List ℕ)
      → length parents ≤ 4
      → length recent ≤ 124
      → is_valid fl uniforms three s pins ≡ true
      → all_parents_valid fl uniforms three s parents ≡ true
      → ((i n : ℕ)
          → (c : Candidate) × (propose fl uniforms three s
                (boost fl (map (λ p. p.traits) parents) three s)
                pins
                parents
                round
                i
                n
              ≡ some c))
      → (out : List Candidate) × (public fl uniforms three s pins parents seed (pos round) recent
          ≡ ok out)
        × (length out ≡ 4)
  unfolding public
  public_four s pins parents seed round recent few old e1 e2 works =
      let boosted = boost fl (map (λ p. p.traits) parents) three s in
      let (out, found, four) =
        search_four (propose fl uniforms three s boosted pins parents round) seed 128 0 recent
          recent [] works (λ i later less met. met) (omega arith) (omega arith)
          (omega (arith, old)) in
      let room : (ltb 4 (length parents) || (ltb 128 (length recent) || ltb_ℤ (pos round) (pos 0)))
          ≡ false =
        ground (arith, few, old) in
      (out, rw (room, e1, e2, found) refl, four)
