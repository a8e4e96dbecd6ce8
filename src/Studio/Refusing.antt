-- ===== src/Studio/Refusing.antt =====
-- internal/studio/studio.go: what a handler leaves behind when it fails.
use go_graphics.Common.{
  refl, ◌≡◌, String, Bool, true, false, List, Option, some, none, arith, Bool-cases, inl, inr, not,
  if◌then◌else◌, same, ◌⊎◌, ◌||◌, ◌∷◌, [],
}
use go_graphics.Common.Dict.{Dict}
use go_graphics.Common.Int.{ℤ}
use go_graphics.RenderJob.Model.{Result, ok, err, Error, err_conflict, busy, failure, err_expired}
use go_graphics.Studio.Model.{
  Store, Services, Ambient, Operation, OpenExploration, OpenWorkspace, continue, after_check,
  or_fail, is_revision, Action, Jobs, Sample,
}
use go_graphics.Studio.Visits.{find}
use go_graphics.Studio.Generation.{
  generate, generate_in, generate_new, record_batch, run_plan, answer, is_heavy, action_in, replay,
}
use go_graphics.Studio.Generation.Planning.{Plan, check_selection, plan}
use go_graphics.Studio.View.{snapshot}
use go_graphics.Studio.Choosing.{
  choices, set_favourite, order_from, cancel_batch, download, sample_in, is_last, last_batch,
  has_download, record_download, download_request,
}
use go_graphics.Publish.{pins}

-- After an error the workspaces are `ws`.
unfoldable pub Spares : {A J : Type 0} → Dict OpenWorkspace → Result A × Store J → Type 0
Spares ws r = (e : Error) → r.0 ≡ err e → r.1.workspaces ≡ ws

Spares-now :
    {A J : Type 0} (ws : Dict OpenWorkspace) (r : Result A × Store J)
    → Spares ws r
    → (e : Error) → r.0 ≡ err e
    → r.1.workspaces ≡ ws
unfolding Spares
Spares-now ws r p = p

pub failed-Spares :
    (A : Type 0) {J : Type 0} (e : Error) (s : Store J) → Spares {A = A} s.workspaces (err e, s)
unfolding Spares
failed-Spares A e s d f = refl

module _ {A J : Type 0} where
  done-Spares : (ws : Dict OpenWorkspace) (a : A) (s : Store J) → Spares ws (ok a, s)
  unfolding Spares
  done-Spares ws a s d f = absurd (ground arith)

  if_Spares :
      (ws : Dict OpenWorkspace) (b : Bool) (x y : Result A × Store J)
      → Spares ws x
      → Spares ws y
      → Spares ws (if b then x else y)
  if_Spares ws true x y p q = p
  if_Spares ws false x y p q = q

  fail-Spares :
      (b : Bool) (e : Error) (s : Store J) (y : Result A × Store J)
      → Spares s.workspaces y
      → Spares s.workspaces (if b then (err e, s) else y)
  fail-Spares true e s y p = failed-Spares _ e s
  fail-Spares false e s y p = p

module _ {A B J : Type 0} where
  or_fail-Spares :
      (e : Error) (o : Option A) (next : A → Operation J B) (s : Store J)
      → ((a : A) → Spares s.workspaces (next a s))
      → Spares s.workspaces (or_fail e o next s)
  or_fail-Spares e none next s p = failed-Spares _ e s
  or_fail-Spares e (some a) next s p = p a

  after_check-Spares :
      (r : Result A) (next : Operation J B) (s : Store J)
      → Spares s.workspaces (next s)
      → Spares s.workspaces (after_check r next s)
  after_check-Spares (err e) next s p = failed-Spares _ e s
  after_check-Spares (ok a) next s p = p

  continue-Spares :
      (next : A → Operation J B) (r : Result A × Store J)
      → ((a : A) → Spares r.1.workspaces (next a r.1))
      → Spares r.1.workspaces (continue next r)
  continue-Spares next (err e, s) p = failed-Spares _ e s
  continue-Spares next (ok a, s) p = p a

module _ {S J : Type 0} (sv : Services S J) (h : Ambient) where
  record_batch-Spares :
      (token id action_id digest : String) (selected : List String) (x : OpenExploration) (p : Plan)
      (r : Result (List String) × J) (s : Store J)
      → Spares s.workspaces (record_batch sv h token id action_id digest selected x p r s)
  unfolding Spares
  record_batch-Spares token id action_id digest selected x p (err e, j) s d f = refl
  record_batch-Spares token id action_id digest selected x p (ok jobs, j) s d f =
      absurd (ground arith)

  run_plan-Spares :
      (token id action_id digest : String) (selected : List String) (x : OpenExploration) (j : J)
      (r : Result Plan) (s : Store J)
      → Spares s.workspaces (run_plan sv h token id action_id digest selected x j r s)
  run_plan-Spares token id action_id digest selected x j (err e) s = failed-Spares _ e s
  run_plan-Spares token id action_id digest selected x j (ok p) s =
      fail-Spares (is_heavy sv h p s) busy s _
        (record_batch-Spares token id action_id digest selected x p _ s)

  generate_new-Spares :
      (token id : String) (revision : ℤ) (action_id digest : String) (selected : List String)
      (different : Bool) (x : OpenExploration) (s : Store J)
      → Spares s.workspaces
          (generate_new sv h token id revision action_id digest selected different x s)
  unfolding generate_new
  generate_new-Spares token id revision action_id digest selected different x s =
      fail-Spares (not (is_revision revision x.view.revision)) err_conflict s _ (
        fail-Spares (snapshot sv.queue s.jobs token x).active
          (failure "your current samples are still being made") s _
          (or_fail-Spares busy s.jobs
            (λ j t.
              run_plan sv h token id action_id digest selected x j
                (plan sv h.entropy selected different x) t)
            s (λ j. run_plan-Spares token id action_id digest selected x j _ s)))

  answer-Spares :
      (digest : String) (o : Option Action) (next : Operation J String) (s : Store J)
      → Spares s.workspaces (next s)
      → Spares s.workspaces (answer sv h digest o next s)
  answer-Spares digest none next s p = p
  answer-Spares digest (some a) next s p = elim (Bool-cases (same a.digest digest)) [
    | inl equal ↦ rw (answer, replay, equal) (done-Spares s.workspaces a.batch s)
    | inr other ↦ rw (answer, replay, other) (failed-Spares _ err_conflict s)
  ]

  -- The four handlers with a revision or a sample, and `Generate`.
  generate-Spares :
      (token id : String) (revision : ℤ) (action_id : String) (selected : List String)
      (different : Bool) (s : Store J) (u : Unit {0})
      → check_selection action_id selected ≡ ok u
      → Spares
          (find sv.queue h token id s).1.workspaces
          (generate sv h token id revision action_id selected different s)
  unfolding generate generate_in
  generate-Spares token id revision action_id selected different s u checked = rw checked (
      continue-Spares _ (find sv.queue h token id s) (λ x.
        answer-Spares _ (action_in action_id x.actions) _ _
          (generate_new-Spares token id revision action_id _ selected different x _)))

  -- If `Generate` fails, the workspaces are as before, or as the search for the exploration leaves them:
  -- no exploration, sample or batch is changed.
  pub generate_refused :
      (token id : String) (revision : ℤ) (action_id : String) (selected : List String)
      (different : Bool) (s : Store J) (e : Error)
      → (generate sv h token id revision action_id selected different s).0 ≡ err e
      → ((generate sv h token id revision action_id selected different s).1.workspaces
          ≡ s.workspaces)
        ⊎ ((generate sv h token id revision action_id selected different s).1.workspaces
            ≡ (find sv.queue h token id s).1.workspaces)
  unfolding generate
  generate_refused token id revision action_id selected different s e f =
      checked (check_selection action_id selected) refl
    where
      checked :
          (r : Result (Unit {0}))
          → check_selection action_id selected ≡ r
          → ((generate sv h token id revision action_id selected different s).1.workspaces
              ≡ s.workspaces)
            ⊎ ((generate sv h token id revision action_id selected different s).1.workspaces
                ≡ (find sv.queue h token id s).1.workspaces)
      checked (err d) g = inl (rw g refl)
      checked (ok u) g = inr (
          Spares-now _ _ (generate-Spares token id revision action_id selected different s u g) e f)

-- The handlers that change an exploration and answer only with an error.
pub data Change : Type 0 where
  choosing : ℤ → String → String → Change
  keeping : String → ℤ → Bool → Change
  stopping : ℤ → String → Change
  ordering : String → Change

module _ {J : Type 0} (queue : Jobs J) (h : Ambient) (token id : String) where
  record_download-Spares :
      (sample : String) (x : OpenExploration) (r : Result (List String) × J) (s : Store J)
      → Spares s.workspaces (record_download queue h token id sample x r s)
  unfolding Spares
  record_download-Spares sample x (err e, k) s d f = refl
  record_download-Spares sample x (ok jobs, k) s d f = absurd (ground arith)

  order_from-Spares :
      (sample : String) (x : OpenExploration) (a : Sample) (j : J) (s : Store J)
      → Spares s.workspaces (order_from queue h token id sample x a j s)
  order_from-Spares sample x a j s =
      if_Spares s.workspaces (has_download queue h j token a) (ok tt, s) _
        (done-Spares s.workspaces tt s)
        (record_download-Spares sample x
          (queue.admit token (download_request queue h s.build a.recipe ∷ []) j) s)

  -- One call of one of the handlers.
  abbrev pub perform : Change → Operation J (Unit {0})
  perform (choosing revision style colour) = choices queue h token id revision style colour
  perform (keeping sample revision on) = set_favourite queue h token id sample revision on
  perform (stopping revision batch) = cancel_batch queue h token id revision batch
  perform (ordering sample) = download queue h token id sample

  perform-Spares :
      (c : Change) (s : Store J) → Spares (find queue h token id s).1.workspaces (perform c s)
  unfolding choices set_favourite cancel_batch download
  perform-Spares (choosing revision style colour) s =
      continue-Spares _ (find queue h token id s) (λ x.
        fail-Spares (not (is_revision revision x.view.revision)) err_conflict _ _
          (after_check-Spares (pins x.view.artwork style colour) _ _ (done-Spares _ tt _)))
  perform-Spares (keeping sample revision on) s = continue-Spares _ (find queue h token id s) (λ x.
      fail-Spares (not (is_revision revision x.view.revision)) err_conflict _ _ (
        or_fail-Spares err_expired (sample_in sample x.view.samples) _ _
          (λ a. fail-Spares _ _ _ _ (done-Spares _ tt _))))
  perform-Spares (stopping revision batch) s = continue-Spares _ (find queue h token id s) (λ x.
      fail-Spares
        (not (is_revision revision x.view.revision)
          || not (is_last batch (last_batch x.view.batches)))
        err_conflict _ _ (done-Spares _ tt _))
  perform-Spares (ordering sample) s = continue-Spares _ (find queue h token id s) (λ x.
      or_fail-Spares err_expired (sample_in sample x.view.samples) _ _ (λ a.
        or_fail-Spares busy (find queue h token id s).1.jobs
          (order_from queue h token id sample x a) (find queue h token id s).1
          (λ j. order_from-Spares sample x a j _)))

  -- If `Choices`, `Favourite`, `Cancel` or `Download` fails, with whatever error, the workspaces are as
  -- the search for the exploration leaves them: nothing is changed by halves.
  pub perform_refused :
      (c : Change) (s : Store J) (e : Error)
      → (perform c s).0 ≡ err e
      → (perform c s).1.workspaces ≡ (find queue h token id s).1.workspaces
  perform_refused c s e f = Spares-now _ _ (perform-Spares c s) e f
