-- ===== src/Studio/Generation/Replay.antt =====
-- The same submission twice: the second is answered from the remembered actions.
use go_graphics.Common.{
  refl, ◌≡◌, String, Bool, List, [], ◌∷◌, ◌++◌, Option, some, none, arith, ap, sym, ◌∙◌, subst,
  same, length, ltb, Bool-cases, if_both, inl, if_true, same_eq, inr, if_false, same_refl,
}
use go_graphics.Common.Dict.{insert, Distinct, lookup-insert_self}
use go_graphics.Common.Int.{ℤ}
use go_graphics.RenderJob.Model.{ok}
use go_graphics.Studio.Model.{Store, Services, Ambient, OpenExploration, Action, on_workspace}
use go_graphics.Studio.Generation.{
  generate, generate_in, action_in, answer, save, last_eight, generate_new, extend, find,
  check_selection, new_samples, with_jobs,
}
use go_graphics.Studio.Sound.{Holds, IsBounded}
use go_graphics.Studio.Sound.Keeping.{left}
use go_graphics.Studio.Sound.Planning.{IsCompact}
use go_graphics.Studio.Succeeding.{after_check_ok, continue_ok, after_check_with, continue_with}
use go_graphics.RenderJob.Protocol.{ok_inj}
use go_graphics.Studio.Sound.Visiting.{find-Holds}
use go_graphics.Studio.Sound.Generating.{generate-IsBounded}
use go_graphics.Studio.Generation.Made.{generate_new-Made, Made}
use go_graphics.Studio.Visits.Finding.{find_was, Holds-same}

action_in_append :
    (xs : List Action) (a : Action)
    → action_in a.id xs ≡ none
    → action_in a.id (xs ++ (a ∷ [])) ≡ some a
action_in_append [] a e = ground arith
action_in_append (x ∷ xs) a e = ground (arith, action_in_append xs a)

action_in_last :
    (xs : List Action) (a : Action)
    → action_in a.id xs ≡ none
    → action_in a.id (last_eight (xs ++ (a ∷ []))) ≡ some a
action_in_last [] a e = ground arith
action_in_last (x ∷ xs) a e =
    if_both (λ ys. action_in a.id ys ≡ some a) (ltb 8 (length ((x ∷ xs) ++ (a ∷ []))))
      (xs ++ (a ∷ [])) ((x ∷ xs) ++ (a ∷ [])) (action_in_append xs a (ground arith))
      (action_in_append (x ∷ xs) a e)

pub save-Holds :
    {J : Type 0} (token id : String) (s : Store J) (x y : OpenExploration)
    → Holds token id s x
    → Holds token id (save token id y s) y
save-Holds token id s x y (w, here, found) =
    rw (save, on_workspace, here)
      (
        record w { explorations = insert id y w.explorations },
        lookup-insert_self token _ s.workspaces,
        lookup-insert_self id y w.explorations,
      )

module _ {S J : Type 0} (sv : Services S J) where
  -- The exploration remembers the action, with the digest of the selection and the batch.
  Noted : String → String → String → String → String → Store J → OpenExploration → Type 0
  Noted token id action_id digest b t y =
      Holds token id t y
      × ((a : Action) × (action_in action_id y.actions ≡ some a)
          × (a.digest ≡ digest)
          × (a.batch ≡ b))

  extend-Noted :
      (h : Ambient) (token id action_id digest : String) (x : OpenExploration) (s t : Store J)
      (b : String)
      → Made sv h token id action_id digest x s t b
      → action_in action_id x.actions ≡ none
      → Holds token id s x
      → (y : OpenExploration) × Noted token id action_id digest b t y
  unfolding extend Noted
  extend-Noted h token id action_id digest x s t b m e held =
      let a : Action = record { id = action_id; digest = digest; batch = m.batch.id } in
      let y =
        extend m.plan (new_samples h m.plan 1 m.plan.recipes m.jobs) m.batch action_id digest x in
      (
        y,
        (
          subst (λ u. Holds token id u y) (sym m.written)
              (save-Holds token id (with_jobs sv h s m.queue) x y held),
          (a, action_in_last x.actions a e, refl, sym m.named),
        ),
      )

  replayed :
      (h : Ambient) (token id : String) (revision : ℤ) (action_id : String) (selected : List String)
      (different : Bool) (x : OpenExploration) (s : Store J) (a : Action)
      → action_in action_id x.actions ≡ some a
      → a.digest ≡ sv.selection_digest revision selected different
      → generate_in sv h token id revision action_id selected different x s ≡ (ok a.batch, s)
  unfolding generate_in
  replayed h token id revision action_id selected different x s a e f =
      rw (e, f, same_refl (sv.selection_digest revision selected different)) refl

  generate_in-Noted :
      (h : Ambient) (token id : String) (revision : ℤ) (action_id : String) (selected : List String)
      (different : Bool) (x : OpenExploration) (s : Store J) (b : String) (t : Store J)
      → Holds token id s x
      → generate_in sv h token id revision action_id selected different x s ≡ (ok b, t)
      → (y : OpenExploration) × Noted token id action_id
          (sv.selection_digest revision selected different)
          b
          t
          y
  unfolding generate_in Noted
  generate_in-Noted h token id revision action_id selected different x s b t held f =
      answered (action_in action_id x.actions) refl f
    where
      answered :
          (o : Option Action)
          → action_in action_id x.actions ≡ o
          → answer sv h
              (sv.selection_digest revision selected different)
              o
              (generate_new sv h token id revision action_id
                (sv.selection_digest revision selected different)
                selected
                different
                x)
              s
            ≡ (ok b, t)
          → (y : OpenExploration) × Noted token id action_id
              (sv.selection_digest revision selected different)
              b
              t
              y
      answered (some a) e g =
          elim (Bool-cases (same a.digest (sv.selection_digest revision selected different))) [
            | inl equal ↦
                let r = if_true _ _ _ _ equal g in
                (
                  x,
                  (
                    subst (λ u. Holds token id u x) (ap (λ z. z.1) r) held,
                    (a, e, same_eq _ _ equal, ok_inj (ap (λ z. z.0) r)),
                  ),
                )
            | inr other ↦ absurd (ground (arith, ap (λ z. z.0) (if_false _ _ _ _ other g)))
          ]
      answered none e g =
          let m =
            generate_new-Made sv h token id revision action_id _ selected different x s b t g in
          extend-Noted h token id action_id _ x s t b m e held

  -- If a call of `Generate` succeeds, then the same call again, at any later time at which the
  -- exploration is still there, returns the same batch and does nothing but look: it leaves the store as
  -- the search for the exploration leaves it.
  pub generate_once :
      (h h' : Ambient) (token id : String) (revision : ℤ) (action_id : String)
      (selected : List String) (different : Bool) (s : Store J) (b : String) (t : Store J)
      (y : OpenExploration)
      → IsCompact sv
      → IsBounded s
      → generate sv h token id revision action_id selected different s ≡ (ok b, t)
      → (find sv.queue h' token id t).0 ≡ ok y
      → generate sv h' token id revision action_id selected different t
        ≡ (ok b, (find sv.queue h' token id t).1)
  unfolding generate Noted generate_in IsBounded
  generate_once h h' token id revision action_id selected different s b t y law inv f found =
      let (u, checked, g) = after_check_ok (check_selection action_id selected) _ s b t f in
      let (x, e, k) = continue_ok _ (find sv.queue h token id s) b t g in
      let (z, (held, (a, noted, same_digest, same_batch))) =
        generate_in-Noted h token id revision action_id selected different x _ b t
          (find-Holds sv.queue h token id s x e) k in
      let bounded =
        left IsBounded _
          (generate-IsBounded sv h token id revision action_id selected different s law inv) in
      let was =
        find_was sv.queue h' token id t y (subst (λ r. Distinct r.1.workspaces) f bounded.3)
          found in
      let same_y = Holds-same token id t z y held was in
      after_check_with (check_selection action_id selected) _ t u checked
      ∙ continue_with _ (find sv.queue h' token id t) y found
      ∙ replayed h' token id revision action_id selected different y _ a
          (subst (λ w. action_in action_id w.actions ≡ some a) same_y noted) same_digest
      ∙ ap (λ c. (ok c, (find sv.queue h' token id t).1)) same_batch
