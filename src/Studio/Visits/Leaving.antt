-- ===== src/Studio/Visits/Leaving.antt =====
-- `Clear` takes one workspace away.
use go_graphics.Common.{
  if◌then◌else◌, refl, ◌≡◌, ◌≢◌, String, false, none, arith, ap, ℕ, Option-cases, inl, inr, not,
  ◌∙◌, ◌<◌, ◌*◌,
}
use go_graphics.Common.Dict.{
  lookup, Distinct, lookup-retain, kept, insert-Distinct, lookup-insert_self, lookup-insert_ne,
}
use go_graphics.RenderJob.Model.{minute}
use go_graphics.Studio.Model.{Store, Jobs, Ambient, on_workspace}
use go_graphics.Studio.Visits.{prune, swept, is_lapsed, clear, touch}

touched_lookup :
    {J : Type 0} (token other : String) (s : Store J)
    → token ≢ other
    → lookup other (on_workspace token (touch 0) s).workspaces ≡ lookup other s.workspaces
touched_lookup token other s apart = elim (Option-cases (lookup token s.workspaces)) [
  | inl absent ↦ rw (on_workspace, absent) refl
  | inr (w, found) ↦
      rw (on_workspace, found) (lookup-insert_ne token other (touch 0 w) s.workspaces apart)
]

touched_Distinct :
    {J : Type 0} (token : String) (s : Store J)
    → Distinct s.workspaces
    → Distinct (on_workspace token (touch 0) s).workspaces
touched_Distinct token s d = elim (Option-cases (lookup token s.workspaces)) [
  | inl absent ↦ rw (on_workspace, absent) d
  | inr (w, found) ↦ rw (on_workspace, found) (insert-Distinct token (touch 0 w) s.workspaces d)
]

touched_memory :
    {J : Type 0} (token : String) (s : Store J)
    → (on_workspace token (touch 0) s).persistent ≡ s.persistent
touched_memory token s = elim (Option-cases (lookup token s.workspaces)) [
  | inl absent ↦ rw (on_workspace, absent) refl
  | inr (w, found) ↦ rw (on_workspace, found) refl
]

-- The last visit now lies far back.
touched_lapses :
    {J : Type 0} (now : ℕ) (token : String) (s : Store J)
    → 30 * minute < now
    → kept (λ w. not (is_lapsed now w)) (lookup token (on_workspace token (touch 0) s).workspaces)
      ≡ none
touched_lapses now token s late = elim (Option-cases (lookup token s.workspaces)) [
  | inl absent ↦ rw (on_workspace, absent, absent) refl
  | inr (w, found) ↦
      rw (on_workspace, found, lookup-insert_self token (touch 0 w) s.workspaces) (ground arith)
]

module _ {J : Type 0} (queue : Jobs J) where
  prune-swept :
      (now : ℕ) (s : Store J) → s.persistent ≡ false → prune queue now s ≡ swept queue now s
  unfolding prune
  prune-swept now s e = ap (λ b. if b then s else swept queue now s) e

  swept_lookup :
      (now : ℕ) (key : String) (s : Store J)
      → s.persistent ≡ false
      → Distinct s.workspaces
      → lookup key (prune queue now s).workspaces
        ≡ kept (λ w. not (is_lapsed now w)) (lookup key s.workspaces)
  swept_lookup now key s memory d =
      ap (λ u. lookup key u.workspaces) (prune-swept now s memory)
      ∙ lookup-retain (λ w. not (is_lapsed now w)) key s.workspaces d

  -- In memory and with distinct tokens, at a time more than half an hour after Go's zero time, `Clear`
  -- takes away the visitor's workspace, and leaves every other workspace as it is unless it has lapsed.
  pub clear_lem :
      (h : Ambient) (token other : String) (s : Store J)
      → s.persistent ≡ false
      → Distinct s.workspaces
      → 30 * minute < h.now
      → token ≢ other
      → (lookup token (clear queue h token s).workspaces ≡ none)
        × (lookup other (clear queue h token s).workspaces
            ≡ kept (λ w. not (is_lapsed h.now w)) (lookup other s.workspaces))
  unfolding clear
  clear_lem h token other s memory d late apart =
      let u : Store J = on_workspace token (touch 0) s in
      let left = touched_memory token s ∙ memory in
      let apart_still = touched_Distinct token s d in
      (
        swept_lookup h.now token u left apart_still ∙ touched_lapses h.now token s late,
        swept_lookup h.now other u left apart_still
            ∙ ap (kept (λ w. not (is_lapsed h.now w))) (touched_lookup token other s apart),
      )
