-- ===== src/Base/Strings.antt =====
-- Rust strings, byte strings and file names as lists of bytes. All the program looks for in a
-- text is ASCII, so a search by bytes is the search by characters.
use Prim.Native.Nat.{ℕ}
use Prim.Native.Char.{code}
use Prim.Native.String.{String}
use mathlib.Core.Path.{◌≡◌, refl, sym, ap, ◌∙◌}
use mathlib.Core.Logic.{◌↔◌, inl, inr}
use mathlib.Core.Bool.{Bool, true, false, ◌&&◌, ◌||◌}
use mathlib.Core.Option.{Option, none, some}
use mathlib.Core.Option
use mathlib.Core.List.{List, [], ◌∷◌, ◌++◌, reverse, reverse-append, reverse-reverse}
use native.Mathlib.Omega.{arith}
use pakstak.Base.Tests.{nat_eq, if◌then◌else◌, Option-cases}

abbrev pub Text : Type 0
Text = List ℕ

-- The bytes of an ASCII literal.
abbrev pub codes : String → Text
codes String.[] = []
codes (String.◌∷◌ c s) = code c ∷ codes s

infix 50 ◌==◌
unfoldable pub ◌==◌ : Text → Text → Bool
[] == [] = true
[] == (y ∷ ys) = false
(x ∷ xs) == [] = false
(x ∷ xs) == (y ∷ ys) = nat_eq x y && xs == ys

pub ==_refl : (s : Text) → (s == s) ≡ true
unfolding ◌==◌
==_refl [] = refl
==_refl (x ∷ s) = ground (arith, ==_refl s)

pub ==_eq : (s t : Text) → (s == t) ≡ true → s ≡ t
unfolding ◌==◌
==_eq [] [] h = refl
==_eq [] (y ∷ t) h = cc
==_eq (x ∷ s) [] h = cc
==_eq (x ∷ s) (y ∷ t) h = ground (arith, ==_eq s t)

pub ==_iff : (s t : Text) → ((s == t) ≡ true) ↔ (s ≡ t)
==_iff s t = (==_eq s t, λ p. rw p (==_refl t))

pub ==_sym : (s t : Text) → (s == t) ≡ (t == s)
unfolding ◌==◌
==_sym [] [] = refl
==_sym [] (y ∷ t) = refl
==_sym (x ∷ s) [] = refl
==_sym (x ∷ s) (y ∷ t) = ground (arith, ==_sym s t)

-- `contains` of one character
abbrev pub contains : Text → ℕ → Bool
contains [] c = false
contains (x ∷ s) c = nat_eq x c || contains s c

pub contains-append : (s t : Text) (c : ℕ) → contains (s ++ t) c ≡ (contains s c || contains t c)
contains-append [] t c = refl
contains-append (x ∷ s) t c = ground (arith, contains-append s t c)

-- Membership in a list of texts, as `HashSet::contains`.
abbrev pub mem : Text → List Text → Bool
mem t [] = false
mem t (s ∷ l) = t == s || mem t l

-- `strip_prefix`
unfoldable pub strip_prefix : Text → Text → Option Text
strip_prefix [] s = some s
strip_prefix (c ∷ p) [] = none
strip_prefix (c ∷ p) (x ∷ s) = if nat_eq c x then strip_prefix p s else none

pub strip_prefix-append : (p s : Text) → strip_prefix p (p ++ s) ≡ some s
unfolding strip_prefix
strip_prefix-append [] s = refl
strip_prefix-append (c ∷ p) s = ground (arith, strip_prefix-append p s)

pub strip_prefix_sound : (p s : Text) {r : Text} → strip_prefix p s ≡ some r → s ≡ p ++ r
unfolding strip_prefix
strip_prefix_sound [] s h = ground arith
strip_prefix_sound (c ∷ p) [] h = cc
strip_prefix_sound (c ∷ p) (x ∷ s) {r} h = ground (arith, strip_prefix_sound p s {r = r})

-- `strip_suffix`
unfoldable pub strip_suffix : Text → Text → Option Text
unfolding strip_prefix
strip_suffix p s = Option.map reverse (strip_prefix (reverse p) (reverse s))

pub strip_suffix_sound : (p s : Text) {r : Text} → strip_suffix p s ≡ some r → s ≡ r ++ p
unfolding strip_suffix
strip_suffix_sound p s {r} h = elim (Option-cases (strip_prefix (reverse p) (reverse s))) [
  | inl e ↦ ground (arith, e)
  | inr (t, e) ↦
      let back : s ≡ reverse t ++ p =
        sym (reverse-reverse s)
        ∙ ap reverse (strip_prefix_sound (reverse p) (reverse s) e)
        ∙ reverse-append (reverse p) t
        ∙ ap (λ x. reverse t ++ x) (reverse-reverse p) in
      ground (arith, e, back)
]

pub strip_suffix-append : (s p : Text) → strip_suffix p (s ++ p) ≡ some s
unfolding strip_suffix
strip_suffix-append s p =
    rw (reverse-append s p, strip_prefix-append (reverse p) (reverse s), reverse-reverse s)
