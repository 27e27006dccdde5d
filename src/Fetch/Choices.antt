-- ===== src/Fetch/Choices.antt =====
-- The descriptor that is chosen of an index.
use pakstak.Base.{
  Text, ◌≡◌, ◌∙◌, ap, ◌⊎◌, inl, inr, refl, Option, none, some, true, false, List, [], ◌∷◌, ◌++◌,
  All, Option-cases, Bool-cases, arith, subst,
}
use pakstak.Manifest.{Descriptor, matches_current_platform}
use pakstak.Auth.{or_else}
use pakstak.Fetch.{find_matching, first}

module _ (os arch : Text) where
  abbrev pub IsOther : Descriptor → Type 0
  IsOther d = matches_current_platform os arch d ≡ false

  -- The first descriptor of this platform, or the first of all where none is.
  abbrev pub IsChoice : List Descriptor → Descriptor → Type 0
  IsChoice ds d =
      ((before : List Descriptor) × (after : List Descriptor) × (ds ≡ before ++ d ∷ after)
        × All IsOther before
        × (matches_current_platform os arch d ≡ true))
      ⊎ ((after : List Descriptor) × (ds ≡ d ∷ after) × All IsOther ds)

  find_matching_sound :
      (ds : List Descriptor) (d : Descriptor)
      → find_matching os arch ds ≡ some d
      → (before : List Descriptor) × (after : List Descriptor) × (ds ≡ before ++ d ∷ after)
        × All IsOther before
        × (matches_current_platform os arch d ≡ true)
  unfolding find_matching
  find_matching_sound [] d h = cc
  find_matching_sound (x ∷ ds) d h = elim (Bool-cases (matches_current_platform os arch x)) [
    | inl e ↦
        let same : x ≡ d = ground (arith, e) in
        ([], ds, rw same refl, tt, subst (λ y. matches_current_platform os arch y ≡ true) same e)
    | inr e ↦
        let (before, after, at, others, this) = find_matching_sound ds d (ground (arith, e)) in
        (x ∷ before, after, ap (λ l. x ∷ l) at, (e, others), this)
  ]

  find_matching-none : (ds : List Descriptor) → find_matching os arch ds ≡ none → All IsOther ds
  unfolding find_matching
  find_matching-none [] h = tt
  find_matching-none (x ∷ ds) h = elim (Bool-cases (matches_current_platform os arch x)) [
    | inl e ↦ ground (arith, e)
    | inr e ↦ (e, find_matching-none ds (ground (arith, e)))
  ]

  found_first :
      (o : Option Descriptor) (x : Descriptor) (other : Option Descriptor) {d : Descriptor}
      → o ≡ some x
      → or_else o other ≡ some d
      → some x ≡ some d
  found_first none x other e h = cc
  found_first (some y) x other e h = cc

  pub choose_sound :
      (ds : List Descriptor) (d : Descriptor)
      → or_else (find_matching os arch ds) (first ds) ≡ some d
      → IsChoice ds d
  choose_sound ds d h = elim (Option-cases (find_matching os arch ds)) [
    | inr (x, e) ↦
        inl (find_matching_sound ds d (e ∙ found_first (find_matching os arch ds) x (first ds) e h))
    | inl e ↦ by_first ds e (ground (arith, e))
  ]
    where
      by_first :
          (l : List Descriptor) → find_matching os arch l ≡ none → first l ≡ some d → IsChoice l d
      by_first [] e f = cc
      by_first (x ∷ l) e f =
          let same : x ≡ d = ground (arith, f) in
          inr (l, ap (λ y. y ∷ l) same, find_matching-none (x ∷ l) e)
