-- ===== src/Base/Splits.antt =====
-- `split_once`, `rsplit_once`, `split` and `join` on one character, with the laws that relate them.
use pakstak.Base.Tests.{nat_eq, if◌then◌else◌, Bool-cases, Option-cases}
use pakstak.Base.Lists.{List-cases}
use pakstak.Base.Strings.{Text, contains}
use Prim.Native.Nat.{ℕ}
use mathlib.Core.Path.{◌≡◌, refl}
use mathlib.Core.Logic.{◌≢◌, inl, inr}
use mathlib.Core.Bool.{false}
use mathlib.Core.Option.{Option, none, some}
use mathlib.Core.List.{List, [], ◌∷◌, ◌++◌}
use native.Mathlib.Omega.{arith}

-- `split_once`: at the first occurrence.
unfoldable pub split_once : ℕ → Text → Option (Text × Text)
split_once c [] = none
split_once c (x ∷ s) =
    let rest = split_once c s in
    if nat_eq x c then some ([], s) else elim rest [ none ↦ none | some (a, b) ↦ some (x ∷ a, b) ]

-- `rsplit_once`: at the last occurrence.
unfoldable pub rsplit_once : ℕ → Text → Option (Text × Text)
rsplit_once c [] = none
rsplit_once c (x ∷ s) = elim (rsplit_once c s) [
  | some (a, b) ↦ some (x ∷ a, b)
  | none ↦ if nat_eq x c then some ([], s) else none
]

abbrev cons_head : ℕ → List Text → List Text
cons_head x [] = (x ∷ []) ∷ []
cons_head x (p ∷ ps) = (x ∷ p) ∷ ps

-- `split`: the pieces between the occurrences, at least one.
unfoldable pub split : ℕ → Text → List Text
split c [] = [] ∷ []
split c (x ∷ s) = let rest = split c s in if nat_eq x c then [] ∷ rest else cons_head x rest

-- `join`
unfoldable pub join : ℕ → List Text → Text
join c [] = []
join c (p ∷ []) = p
join c (p ∷ q ∷ ps) = p ++ c ∷ join c (q ∷ ps)

module _ (c : ℕ) where
  pub split_once-append :
      (a b : Text) → contains a c ≡ false → split_once c (a ++ c ∷ b) ≡ some (a, b)
  unfolding split_once
  split_once-append [] b h = ground arith
  split_once-append (x ∷ a) b h = ground (arith, split_once-append a b)

  pub split_once_sound :
      (s : Text) {a b : Text}
      → split_once c s ≡ some (a, b)
      → (s ≡ a ++ c ∷ b) × (contains a c ≡ false)
  unfolding split_once
  split_once_sound [] h = cc
  split_once_sound (x ∷ s) {a} {b} h = elim (Bool-cases (nat_eq x c)) [
    | inl e ↦ ground arith
    | inr e ↦ elim (Option-cases (split_once c s)) [
      | inl n ↦ ground arith
      | inr (p, q) ↦ ground (arith, split_once_sound s {a = p.0} {b = p.1} q)
    ]
  ]

  -- What either split finds is the text again, and no further occurrence lies on its outer side.
  pub rsplit_once_absent : (s : Text) → rsplit_once c s ≡ none → contains s c ≡ false
  unfolding rsplit_once
  rsplit_once_absent [] h = refl
  rsplit_once_absent (x ∷ s) h = ground (arith, rsplit_once_absent s)

  pub rsplit_once_sound :
      (s : Text) {a b : Text}
      → rsplit_once c s ≡ some (a, b)
      → (s ≡ a ++ c ∷ b) × (contains b c ≡ false)
  unfolding rsplit_once
  rsplit_once_sound [] h = cc
  rsplit_once_sound (x ∷ s) {a} {b} h = elim (Option-cases (rsplit_once c s)) [
    | inl n ↦ ground (arith, rsplit_once_absent s n)
    | inr (p, q) ↦ ground (arith, rsplit_once_sound s {a = p.0} {b = p.1} q)
  ]

  pub rsplit_once-eq-none : (s : Text) → contains s c ≡ false → rsplit_once c s ≡ none
  unfolding rsplit_once
  rsplit_once-eq-none [] h = refl
  rsplit_once-eq-none (x ∷ s) h = ground (arith, rsplit_once-eq-none s)

  pub rsplit_once-append :
      (a b : Text) → contains b c ≡ false → rsplit_once c (a ++ c ∷ b) ≡ some (a, b)
  unfolding rsplit_once
  rsplit_once-append [] b h = ground (arith, rsplit_once-eq-none b)
  rsplit_once-append (x ∷ a) b h = ground (arith, rsplit_once-append a b)

  pub split-ne-nil : (s : Text) → split c s ≢ []
  unfolding split
  split-ne-nil [] h = cc
  split-ne-nil (x ∷ s) h = ground (arith, split-ne-nil s)

  pub split_head :
      (s : Text) {p : Text} {ps : List Text} → split c s ≡ p ∷ ps → contains p c ≡ false
  unfolding split
  split_head [] h = ground arith
  split_head (x ∷ s) {p} {ps} h = elim (List-cases (split c s)) [
    | inl n ↦ absurd (split-ne-nil s n)
    | inr (q, qs, e) ↦ ground (arith, split_head s {p = q} {ps = qs} e)
  ]

  join-cons_head : (x : ℕ) (l : List Text) → l ≢ [] → join c (cons_head x l) ≡ x ∷ join c l
  unfolding join
  join-cons_head x [] h = absurd (h refl)
  join-cons_head x (p ∷ []) h = refl
  join-cons_head x (p ∷ q ∷ l) h = refl

  join-cons_nil : (l : List Text) → l ≢ [] → join c ([] ∷ l) ≡ c ∷ join c l
  unfolding join
  join-cons_nil [] h = absurd (h refl)
  join-cons_nil (p ∷ l) h = refl

  -- Joining the pieces gives the text back.
  pub join-split : (s : Text) → join c (split c s) ≡ s
  unfolding split
  join-split [] = unfold join in refl
  join-split (x ∷ s) = ground (
    arith,
    join-cons_head x (split c s) (split-ne-nil s),
    join-cons_nil (split c s) (split-ne-nil s),
    join-split s,
  )

  pub split-append : (a b : Text) → contains a c ≡ false → split c (a ++ c ∷ b) ≡ a ∷ split c b
  unfolding split
  split-append [] b h = ground arith
  split-append (x ∷ a) b h = ground (arith, split-append a b)

  pub split-eq-singleton : (s : Text) → contains s c ≡ false → split c s ≡ s ∷ []
  unfolding split
  split-eq-singleton [] h = refl
  split-eq-singleton (x ∷ s) h = ground (arith, split-eq-singleton s)
