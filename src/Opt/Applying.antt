-- ===== src/Opt/Applying.antt =====
-- What `Apply` accepts, and the suffix that it returns.
use Prim.Native.String.{◌++◌ as append}
use text.Mathlib.TextLemmas.{append_assoc, append-nil, nil-append, append-eq-nil_iff}
use go_graphics.Common.{
  ◌≡◌, refl, ◌∙◌, sym, ap, arith, String, true, false, not, List, [], ◌∷◌, All, ◌⊎◌, inl, inr, same,
  same_eq, same_refl, Bool-cases, if◌then◌else◌, ◌&&◌, subst,
}
use go_graphics.Common.Int.{◌≤ℤ◌}
use go_graphics.Common.Names.{contains}
use go_graphics.RenderJob.Model.{Result, ok, err, failure}
use go_graphics.Opt.{
  Numbers, Setting, Knob, float_setting, int_setting, uint_setting, bool_setting, choice_setting,
  is_choice, is_in_range, show_setting, add_part, collect, suffix, apply_knobs,
}

-- The text is one of the list.
abbrev pub Among : String → List String → Type 0
Among x [] = ⊥
Among x (v ∷ rest) = (v ≡ x) ⊎ Among x rest

-- The suffix part by part.
suffix_more :
    (p : String) (rest : List String) → suffix (p ∷ rest) ≡ append "-" (append p (suffix rest))
suffix_more p [] = ap (append "-") (sym (append-nil p))
suffix_more p (q ∷ rest) = refl

suffix_part :
    (p : String) (parts : List String)
    → same p "" ≡ false
    → suffix (if same p "" then parts else p ∷ parts) ≡ append (append "-" p) (suffix parts)
suffix_part p parts e = rw (e) (suffix_more p parts ∙ sym (append_assoc "-" p (suffix parts)))

tagged : (tag x : String) → same tag "" ≡ false → same (append tag x) "" ≡ false
tagged tag x e = elim (Bool-cases (same (append tag x) "")) [
  | inr full ↦ full
  | inl empty ↦
      let nothing = (append-eq-nil_iff.0 (same_eq (append tag x) "" empty)).0 in
      absurd (ground (arith, e, subst (λ t. same t "" ≡ true) (sym nothing) (same_refl "")))
]

module _ {F : Type 0} (num : Numbers F) where
  -- A float is a number, neither below its lower bound nor with the upper bound below it; an int is between
  -- its bounds; a choice is one of the listed names; the others are free.
  abbrev pub IsInRange : Setting F → Type 0
  IsInRange (float_setting lo hi x) =
      (num.is_odd x ≡ false) × (num.is_below x lo ≡ false) × (num.is_below hi x ≡ false)
  IsInRange (int_setting lo hi x) = (lo ≤ℤ x) × (x ≤ℤ hi)
  IsInRange (uint_setting x) = Unit
  IsInRange (bool_setting x) = Unit
  IsInRange (choice_setting values x) = Among x values

  abbrev pub IsFine : List String → Knob F → Type 0
  IsFine seen k = (contains k.name seen ≡ false) ⊎ IsInRange k.setting

  -- The first declared knob that is set and out of its range.
  pub data IsFirstBad (seen : List String) : List (Knob F) → String → Type 0 where
    here :
        (k : Knob F) (rest : List (Knob F))
        → contains k.name seen ≡ true
        → ¬ IsInRange k.setting
        → IsFirstBad seen (k ∷ rest) k.name
    later :
        (k : Knob F) (rest : List (Knob F)) (name : String)
        → IsFine seen k
        → IsFirstBad seen rest name
        → IsFirstBad seen (k ∷ rest) name

  -- What a set knob with a tag adds to the name: a bool its tag if it is true, any other knob its tag and
  -- its value.
  abbrev pub mention : String → Setting F → String
  mention tag (float_setting lo hi x) = append "-" (append tag (num.show_float x))
  mention tag (int_setting lo hi x) = append "-" (append tag (num.show_int x))
  mention tag (uint_setting x) = append "-" (append tag (num.show_uint x))
  mention tag (bool_setting x) = if x then append "-" tag else ""
  mention tag (choice_setting values x) = append "-" (append tag x)

  abbrev pub mentions : List String → List (Knob F) → String
  mentions seen [] = ""
  mentions seen (k ∷ rest) =
      let more = mentions seen rest in
      if contains k.name seen && not (same k.tag "")
      then append (mention k.tag k.setting) more
      else more

  is_choice-Among : (x : String) (values : List String) → is_choice x values ≡ true → Among x values
  is_choice-Among x [] e = absurd (ground (arith, e))
  is_choice-Among x (v ∷ rest) e = elim (Bool-cases (same v x)) [
    | inl equal ↦ inl (same_eq v x equal)
    | inr other ↦ inr (is_choice-Among x rest (ground (arith, e, other)))
  ]

  Among-is_choice : (x : String) (values : List String) → Among x values → is_choice x values ≡ true
  Among-is_choice x [] a = elim a [ ]
  Among-is_choice x (v ∷ rest) (inl e) =
      ground (arith, subst (λ k. same v k ≡ true) e (same_refl v))
  Among-is_choice x (v ∷ rest) (inr a) = ground (arith, Among-is_choice x rest a)

  is_in_range-IsInRange : (s : Setting F) → is_in_range num s ≡ true → IsInRange s
  is_in_range-IsInRange (float_setting lo hi x) e =
      (ground (arith, e), ground (arith, e), ground (arith, e))
  is_in_range-IsInRange (int_setting lo hi x) e = (ground (arith, e), ground (arith, e))
  is_in_range-IsInRange (uint_setting x) e = tt
  is_in_range-IsInRange (bool_setting x) e = tt
  is_in_range-IsInRange (choice_setting values x) e = is_choice-Among x values e

  IsInRange-is_in_range : (s : Setting F) → IsInRange s → is_in_range num s ≡ true
  IsInRange-is_in_range (float_setting lo hi x) (a, b, c) = ground (arith, a, b, c)
  IsInRange-is_in_range (int_setting lo hi x) (a, b) = ground (arith, a, b)
  IsInRange-is_in_range (uint_setting x) t = refl
  IsInRange-is_in_range (bool_setting x) t = refl
  IsInRange-is_in_range (choice_setting values x) a = Among-is_choice x values a

  suffix-shown :
      (tag : String) (s : Setting F) (parts : List String)
      → same tag "" ≡ false
      → suffix (if same (show_setting num tag s) "" then parts else show_setting num tag s ∷ parts)
        ≡ append (mention tag s) (suffix parts)
  suffix-shown tag (float_setting lo hi x) parts e =
      suffix_part (append tag (num.show_float x)) parts (tagged tag _ e)
  suffix-shown tag (int_setting lo hi x) parts e =
      suffix_part (append tag (num.show_int x)) parts (tagged tag _ e)
  suffix-shown tag (uint_setting x) parts e =
      suffix_part (append tag (num.show_uint x)) parts (tagged tag _ e)
  suffix-shown tag (bool_setting true) parts e = suffix_part tag parts e
  suffix-shown tag (bool_setting false) parts e =
      rw (same_refl "") (sym (nil-append (suffix parts)))
  suffix-shown tag (choice_setting values x) parts e =
      suffix_part (append tag x) parts (tagged tag x e)

  suffix-add_part :
      (seen : List String) (k : Knob F) (rest : List (Knob F)) (parts : List String)
      → contains k.name seen ≡ true
      → suffix parts ≡ mentions seen rest
      → suffix (add_part num k parts) ≡ mentions seen (k ∷ rest)
  suffix-add_part seen k rest parts set e = elim (Bool-cases (same k.tag "")) [
    | inl plain ↦ rw (set, plain) e
    | inr shown ↦
        rw (set, shown)
          (suffix-shown k.tag k.setting parts shown ∙ ap (append (mention k.tag k.setting)) e)
  ]

  unfoldable IsApplied : List String → List (Knob F) → Result (List String) → Type 0
  IsApplied seen knobs r =
      (All (IsFine seen) knobs
        × ((parts : List String) × (r ≡ ok parts) × (suffix parts ≡ mentions seen knobs)))
      ⊎ ((name : String) × IsFirstBad seen knobs name × (r ≡ err (failure name)))

  free-IsApplied :
      (seen : List String) (k : Knob F) (rest : List (Knob F))
      → contains k.name seen ≡ false
      → IsApplied seen rest (collect num seen rest)
      → IsApplied seen (k ∷ rest) (collect num seen (k ∷ rest))
  unfolding collect IsApplied
  free-IsApplied seen k rest free (inl (fine, (parts, e, text))) =
      inl ((inl free, fine), (parts, rw (free) e, text ∙ rw (free) refl))
  free-IsApplied seen k rest free (inr (name, bad, e)) =
      inr (name, later k rest name (inl free) bad, rw (free) e)

  set-IsApplied :
      (seen : List String) (k : Knob F) (rest : List (Knob F))
      → contains k.name seen ≡ true
      → is_in_range num k.setting ≡ true
      → IsApplied seen rest (collect num seen rest)
      → IsApplied seen (k ∷ rest) (collect num seen (k ∷ rest))
  unfolding collect IsApplied
  set-IsApplied seen k rest set good (inl (fine, (parts, e, text))) = inl (
    (inr (is_in_range-IsInRange k.setting good), fine),
    (add_part num k parts, rw (set, good, e) refl, suffix-add_part seen k rest parts set text),
  )
  set-IsApplied seen k rest set good (inr (name, bad, e)) = inr (
    name,
    later k rest name (inr (is_in_range-IsInRange k.setting good)) bad,
    rw (set, good, e) refl,
  )

  collect-IsApplied :
      (seen : List String) (knobs : List (Knob F)) → IsApplied seen knobs (collect num seen knobs)
  unfolding collect IsApplied
  collect-IsApplied seen [] = inl (tt, ([], refl, refl))
  collect-IsApplied seen (k ∷ rest) = elim (Bool-cases (contains k.name seen)) [
    | inr free ↦ free-IsApplied seen k rest free (collect-IsApplied seen rest)
    | inl set ↦ elim (Bool-cases (is_in_range num k.setting)) [
      | inl good ↦ set-IsApplied seen k rest set good (collect-IsApplied seen rest)
      | inr bad ↦ inr (
        k.name,
        here k rest set (λ r. absurd (ground (arith, bad, IsInRange-is_in_range k.setting r))),
        rw (set, bad) refl,
      )
    ]
  ]

  -- Either every knob that is set is in its range, and `Apply` returns what they mention, one behind the
  -- other in the order of declaration: a dash, the tag and the value, of a bool the tag alone if it is true,
  -- and nothing of a knob without a tag. Or `Apply` fails at the first knob that is set and out of its range.
  pub apply_knobs_lem :
      (seen : List String) (knobs : List (Knob F))
      → (All (IsFine seen) knobs × (apply_knobs num seen knobs ≡ ok (mentions seen knobs)))
        ⊎ ((name : String) × IsFirstBad seen knobs name
            × (apply_knobs num seen knobs ≡ err (failure name)))
  unfolding apply_knobs IsApplied
  apply_knobs_lem seen knobs = elim (collect-IsApplied seen knobs) [
    | inl (fine, (parts, e, text)) ↦ inl (fine, rw (e) (ap ok text))
    | inr (name, bad, e) ↦ inr (name, bad, rw (e) refl)
  ]
