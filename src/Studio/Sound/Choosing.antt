-- ===== src/Studio/Sound/Choosing.antt =====
-- The limits, kept by `Choices`, `Favourite`, `Cancel`, `Download` and `Retry`.
use go_graphics.Common.{
  refl, ℕ, ◌+◌, ◌≤◌, String, Bool, false, List, [], ◌∷◌, ◌≡◌, some, none, arith, Bool-cases, inl,
  inr, length, Option, total, bit, leb, not, ◌&&◌, ◌||◌,
}
use go_graphics.Common.Int.{ℤ}
use go_graphics.RenderJob.Model.{Result, ok, err, busy, err_expired, err_conflict, failure}
use go_graphics.Studio.Model.{
  Store, Services, Jobs, Ambient, OpenExploration, Sample, Batch, save, is_revision,
}
use go_graphics.Studio.Sound.{IsBounded, Holds}
use go_graphics.Studio.Sound.Keeping.{
  after_check_keeps, or_fail_keeps, if_keeps, leaves, Leaves, fail_keeps,
}
use go_graphics.Studio.Generation.{recipe_size, exploration_size, action_in}
use go_graphics.Studio.Choosing.{
  sample_in, exploration_kept, choices, keep_sample, leave, replace, order_from, choose, revised,
  restyled, with_download, kept_count, retry, stop, leave_all, record_download, has_download,
  download, keep, set_favourite, cancel_batch, order, batch_in, download_request, retry_batch,
  count_at, is_last, parents_named, last_batch, members, mark, is_done, is_available,
}
use go_graphics.Studio.Sound.Visiting.{find_keeps}
use go_graphics.Publish.{pins}
use go_graphics.Studio.Sound.Saving.{
  save-IsBounded_light, Holds-IsShort, with_queue-IsBounded, save-IsBounded, Holds_few,
  IsBounded-light,
}
use go_graphics.Studio.Sound.Planning.{IsCompact}
use go_graphics.Studio.Sound.Generating.{generate-IsBounded}
use go_graphics.Studio.View.{snapshot}

module _ {J : Type 0} where
  -- A handler writes an exploration with as many favourites and no more recipes.
  pub saved-Leaves :
      {A : Type 0} (r : Result A) (token id : String) (x y : OpenExploration) (s : Store J)
      → IsBounded s
      → Holds token id s x
      → length y.view.batches ≡ length x.view.batches
      → length y.actions ≡ length x.actions
      → exploration_kept y ≤ exploration_kept x
      → exploration_size y ≤ exploration_size x
      → Leaves IsBounded (r, save token id y s)
  saved-Leaves r token id x y s inv (w, here, found) batches actions few light =
      leaves IsBounded r _ (
        save-IsBounded_light token id w x y s inv here found
          (ground (arith, Holds-IsShort token id x s inv (w, here, found))) few light)

total-replace_size :
    (id : String) (f : Sample → Sample) (xs : List Sample)
    → ((a : Sample) → recipe_size (f a) ≡ recipe_size a)
    → total recipe_size (replace id f xs) ≡ total recipe_size xs
total-replace_size id f [] same_size = refl
total-replace_size id f (a ∷ xs) same_size =
    ground (arith, same_size a, total-replace_size id f xs same_size)

total-replace_kept :
    (id : String) (f : Sample → Sample) (xs : List Sample) (a : Sample)
    → sample_in id xs ≡ some a
    → total (λ b. bit b.favourite) (replace id f xs) + bit a.favourite
      ≡ total (λ b. bit b.favourite) xs + bit (f a).favourite
total-replace_kept id f [] a e = absurd (ground arith)
total-replace_kept id f (b ∷ xs) a e = ground (arith, total-replace_kept id f xs a)

module _ {J : Type 0} (queue : Jobs J) (h : Ambient) where
  choose-IsBounded :
      (token id : String) (revision : ℤ) (style colour : String) (x : OpenExploration) (s : Store J)
      → IsBounded s
      → Holds token id s x
      → Leaves IsBounded (choose queue h token id revision style colour x s)
  choose-IsBounded token id revision style colour x s inv held =
      fail_keeps IsBounded (not (is_revision revision x.view.revision)) err_conflict s _ inv (
        after_check_keeps IsBounded (pins x.view.artwork style colour)
          (λ t. (ok tt, save token id (revised (restyled style colour x)) t)) s inv
          (saved-Leaves (ok tt) token id x (revised (restyled style colour x)) s inv held refl refl
            (omega arith) (omega arith)))

  pub choices-IsBounded :
      (token id : String) (revision : ℤ) (style colour : String) (s : Store J)
      → IsBounded s
      → Leaves IsBounded (choices queue h token id revision style colour s)
  unfolding choices
  choices-IsBounded token id revision style colour s inv =
      find_keeps queue h token id _ s inv (choose-IsBounded token id revision style colour)

  has_room :
      (on : Bool) (a : Sample) (n before after : ℕ)
      → (on && (not a.favourite && leb 24 n)) ≡ false
      → n ≤ 24
      → after + bit a.favourite ≡ before + bit on
      → n + after ≤ 24 + before
  has_room on a n before after room few change = ground arith

  keep_sample-IsBounded :
      (token id sample : String) (on : Bool) (x : OpenExploration) (a : Sample) (s : Store J)
      → IsBounded s
      → Holds token id s x
      → sample_in sample x.view.samples ≡ some a
      → Leaves IsBounded (keep_sample queue h token id sample on x a s)
  keep_sample-IsBounded token id sample on x a s inv (w, here, found) e =
      elim (Bool-cases (on && (not a.favourite && leb 24 (kept_count w)))) [
        | inl full ↦ rw (keep_sample, here, count_at, full) (leaves IsBounded _ s inv)
        | inr room ↦
            rw (keep_sample, here, count_at, room)
              (leaves IsBounded _ _ (
                save-IsBounded token id w x _ s inv here found
                  (Holds-IsShort token id x s inv (w, here, found))
                  (has_room on a (kept_count w) (exploration_kept x) _ room
                    (Holds_few token id x w s inv here)
                    (total-replace_kept sample (mark on) x.view.samples a e))
                  (omega (
                    arith,
                    IsBounded-light s inv,
                    total-replace_size sample (mark on) x.view.samples (λ b. refl),
                  ))))
      ]

  keep-IsBounded :
      (token id sample : String) (revision : ℤ) (on : Bool) (x : OpenExploration) (s : Store J)
      → IsBounded s
      → Holds token id s x
      → Leaves IsBounded (keep queue h token id sample revision on x s)
  keep-IsBounded token id sample revision on x s inv held =
      fail_keeps IsBounded (not (is_revision revision x.view.revision)) err_conflict s _ inv (
        or_fail_keeps IsBounded err_expired (sample_in sample x.view.samples)
          (keep_sample queue h token id sample on x) s inv
          (λ a. keep_sample-IsBounded token id sample on x a s inv held))

  pub set_favourite-IsBounded :
      (token id sample : String) (revision : ℤ) (on : Bool) (s : Store J)
      → IsBounded s
      → Leaves IsBounded (set_favourite queue h token id sample revision on s)
  unfolding set_favourite
  set_favourite-IsBounded token id sample revision on s inv =
      find_keeps queue h token id _ s inv (keep-IsBounded token id sample revision on)

  leave_size :
      (token : String) (names : List String) (xs : List Sample) (j : J)
      → total recipe_size (leave queue h token names xs j).0 ≡ total recipe_size xs
  leave_size token names [] j = refl
  leave_size token names (a ∷ xs) j =
      ground
        (arith, leave_size token names xs j, leave_size token names xs (queue.cancel token a.job j))

  leave_kept :
      (token : String) (names : List String) (xs : List Sample) (j : J)
      → total (λ a. bit a.favourite) (leave queue h token names xs j).0
        ≡ total (λ a. bit a.favourite) xs
  leave_kept token names [] j = refl
  leave_kept token names (a ∷ xs) j =
      ground
        (arith, leave_kept token names xs j, leave_kept token names xs (queue.cancel token a.job j))

  leave_all-IsBounded :
      (token id : String) (names : List String) (x : OpenExploration) (o : Option J) (s : Store J)
      → IsBounded s
      → Holds token id s x
      → Leaves IsBounded (ok tt, leave_all queue h token id names x o s)
  leave_all-IsBounded token id names x none s inv held =
      saved-Leaves (ok tt) token id x (revised x) s inv held refl refl (omega arith) (omega arith)
  leave_all-IsBounded token id names x (some j) s inv held =
      saved-Leaves (ok tt) token id x _
        (record s { jobs = some (leave queue h token names x.view.samples j).1 })
        (with_queue-IsBounded _ s inv) held refl refl
        (omega (arith, leave_kept token names x.view.samples j))
        (omega (arith, leave_size token names x.view.samples j))

  stop-IsBounded :
      (token id : String) (revision : ℤ) (batch : String) (x : OpenExploration) (s : Store J)
      → IsBounded s
      → Holds token id s x
      → Leaves IsBounded (stop queue h token id revision batch x s)
  stop-IsBounded token id revision batch x s inv held =
      fail_keeps IsBounded
        (not (is_revision revision x.view.revision)
          || not (is_last batch (last_batch x.view.batches)))
        err_conflict s _ inv
        (leave_all-IsBounded token id (members (last_batch x.view.batches)) x s.jobs s inv held)

  pub cancel_batch-IsBounded :
      (token id : String) (revision : ℤ) (batch : String) (s : Store J)
      → IsBounded s
      → Leaves IsBounded (cancel_batch queue h token id revision batch s)
  unfolding cancel_batch
  cancel_batch-IsBounded token id revision batch s inv =
      find_keeps queue h token id _ s inv (stop-IsBounded token id revision batch)

  with_download_kept :
      (jobs : List String) (a : Sample) → (with_download queue h jobs a).favourite ≡ a.favourite
  with_download_kept [] a = refl
  with_download_kept (job ∷ jobs) a = refl

  with_download_size :
      (jobs : List String) (a : Sample) → recipe_size (with_download queue h jobs a) ≡ recipe_size a
  with_download_size [] a = refl
  with_download_size (job ∷ jobs) a = refl

  record_download-IsBounded :
      (token id sample : String) (x : OpenExploration) (a : Sample) (r : Result (List String) × J)
      (s : Store J)
      → IsBounded s
      → Holds token id s x
      → sample_in sample x.view.samples ≡ some a
      → Leaves IsBounded (record_download queue h token id sample x r s)
  record_download-IsBounded token id sample x a (err e, j) s inv held e1 =
      leaves IsBounded _ _ (with_queue-IsBounded (some j) s inv)
  record_download-IsBounded token id sample x a (ok jobs, j) s inv held e1 =
      saved-Leaves (ok tt) token id x _ (record s { jobs = some j })
        (with_queue-IsBounded (some j) s inv) held refl refl
        (ground (
          arith,
          with_download_kept jobs a,
          total-replace_kept sample (with_download queue h jobs) x.view.samples a e1,
        ))
        (omega (
          arith,
          total-replace_size sample (with_download queue h jobs) x.view.samples
              (with_download_size jobs),
        ))

  order_from-IsBounded :
      (token id sample : String) (x : OpenExploration) (a : Sample) (j : J) (s : Store J)
      → IsBounded s
      → Holds token id s x
      → sample_in sample x.view.samples ≡ some a
      → Leaves IsBounded (order_from queue h token id sample x a j s)
  order_from-IsBounded token id sample x a j s inv held e =
      if_keeps IsBounded (has_download queue h j token a) (ok tt, s) _
        (leaves IsBounded (ok tt) s inv)
        (record_download-IsBounded token id sample x a
          (queue.admit token (download_request queue h s.build a.recipe ∷ []) j) s inv held e)

  pub download-IsBounded :
      (token id sample : String) (s : Store J)
      → IsBounded s
      → Leaves IsBounded (download queue h token id sample s)
  unfolding download
  download-IsBounded token id sample s inv = find_keeps queue h token id _ s inv (λ x t now held.
      or_fail_keeps IsBounded err_expired (sample_in sample x.view.samples)
        (order queue h token id sample x) t now
        (λ a e.
          or_fail_keeps IsBounded busy t.jobs (order_from queue h token id sample x a) t now
            (λ j f. order_from-IsBounded token id sample x a j t now held e)))

module _ {S J : Type 0} (sv : Services S J) (h : Ambient) where
  retry_batch-IsBounded :
      (token id : String) (revision : ℤ) (action_id : String) (x : OpenExploration) (b : Batch)
      (s : Store J)
      → IsCompact sv
      → IsBounded s
      → Leaves IsBounded (retry_batch sv h token id revision action_id x b s)
  retry_batch-IsBounded token id revision action_id x b s law inv =
      let again =
        generate-IsBounded sv h token id revision action_id (parents_named b) false s law inv in
      if_keeps IsBounded (is_done (action_in action_id x.actions)) _ _ again (
        fail_keeps IsBounded
          (not (is_revision revision x.view.revision)
            || not (is_last b.id (last_batch x.view.batches)))
          err_conflict s _ inv
          (fail_keeps IsBounded (is_available b.samples (snapshot sv.queue s.jobs token x).samples)
            (failure "these images are still available or being made") s _ inv again))

  pub retry-IsBounded :
      (token id : String) (revision : ℤ) (action_id batch : String) (s : Store J)
      → IsCompact sv
      → IsBounded s
      → Leaves IsBounded (retry sv h token id revision action_id batch s)
  unfolding retry
  retry-IsBounded token id revision action_id batch s law inv =
      find_keeps sv.queue h token id _ s inv (λ x t now held.
        or_fail_keeps IsBounded err_expired (batch_in batch x.view.batches)
          (retry_batch sv h token id revision action_id x) t now
          (λ b e. retry_batch-IsBounded token id revision action_id x b t law now))
