-- ===== src/Reference/Laws.antt =====
-- What `Reference::parse` accepts, and which references survive printing and parsing.
use mathlib.Core.List.{append_assoc}
use pakstak.Base.{
  Text, contains, contains-append, is_empty, ok, ◌>>◌, bail_if, false, Option, none, some, ◌∷◌,
  ◌++◌, ℕ, ◌≡◌, refl, ◌∙◌, arith, nat_eq, sym, subst,
}
use pakstak.Base.Splits
use pakstak.Base.Splits.{rsplit_once, split, join}
use pakstak.Reference.{
  Specifier, digest, tag, Reference, registry_not_explicit, repository_missing, at_last,
  not_explicit, build, choose_specifier, parse, suffix, display,
}

pub at_last-append :
    (c : ℕ) (a b : Text) → contains b c ≡ false → at_last c (a ++ c ∷ b) ≡ (a, some b)
unfolding at_last
at_last-append c a b h = rw (Splits.rsplit_once-append c a b h, at_last)

pub at_last_absent : (c : ℕ) (s : Text) → contains s c ≡ false → at_last c s ≡ (s, none)
unfolding at_last
at_last_absent c s h = rw (Splits.rsplit_once-eq-none c s h, at_last)

-- The two texts of a name: the registry, and what follows its first slash.
build-append :
    (registry rest : Text) (d t : Option Text)
    → contains registry b'/' ≡ false
    → build (registry ++ b'/' ∷ rest) d t ≡ (do
      bail_if (not_explicit registry) registry_not_explicit
      bail_if (is_empty rest) repository_missing
      ok (record { registry = registry; repository = rest; specifier = choose_specifier d t }))
unfolding build
build-append registry rest d t h =
    rw (Splits.split-append b'/' registry rest h, Splits.join-split b'/' rest)

-- The conditions under which a specifier can be told from the name that it follows.
abbrev pub IsTold : Text → Text → Specifier → Type 0
IsTold registry repository (digest d) =
    (contains d b'@' ≡ false)
    × (contains registry b':' ≡ false)
    × (contains repository b':' ≡ false)
IsTold registry repository (tag t) =
    (contains t b'@' ≡ false)
    × (contains t b':' ≡ false)
    × (contains registry b'@' ≡ false)
    × (contains repository b'@' ≡ false)

pub record IsCanonical (r : Reference) : Type 0 where
  pub explicit : not_explicit r.registry ≡ false
  pub no_slash : contains r.registry b'/' ≡ false
  pub has_repository : is_empty r.repository ≡ false
  pub told : IsTold r.registry r.repository r.specifier

parse-append_digest :
    (name d : Text)
    → contains d b'@' ≡ false
    → contains name b':' ≡ false
    → parse (name ++ b'@' ∷ d) ≡ build name (some d) none
unfolding parse
parse-append_digest name d h k = rw (at_last-append b'@' name d h, at_last_absent b':' name k)

parse-append_tag :
    (name t : Text)
    → contains t b'@' ≡ false
    → contains t b':' ≡ false
    → contains name b'@' ≡ false
    → parse (name ++ b':' ∷ t) ≡ build name none (some t)
unfolding parse
parse-append_tag name t h k l = rw (
  at_last_absent b'@' (name ++ b':' ∷ t) (ground (arith, contains-append name (b':' ∷ t) b'@')),
  at_last-append b':' name t k,
)

build_canonical :
    (r : Reference) (d t : Option Text)
    → IsCanonical r
    → choose_specifier d t ≡ r.specifier
    → build (r.registry ++ b'/' ∷ r.repository) d t ≡ ok r
build_canonical r d t c e =
    build-append r.registry r.repository d t c.no_slash ∙ rw (c.explicit, c.has_repository, e)

contains-name :
    (registry repository : Text) (c : ℕ)
    → contains registry c ≡ false
    → nat_eq b'/' c ≡ false
    → contains repository c ≡ false
    → contains (registry ++ b'/' ∷ repository) c ≡ false
contains-name registry repository c h k l =
    ground (arith, contains-append registry (b'/' ∷ repository) c)

abbrev name_of : Reference → Text
name_of r = r.registry ++ b'/' ∷ r.repository

display_lem : (r : Reference) → display r ≡ name_of r ++ suffix r.specifier
unfolding display
display_lem r = sym (append_assoc r.registry (b'/' ∷ r.repository) (suffix r.specifier))

parse-suffix :
    (r : Reference) (s : Specifier)
    → IsCanonical r
    → s ≡ r.specifier
    → parse (name_of r ++ suffix s) ≡ ok r
unfolding suffix choose_specifier
parse-suffix r (digest d) c e =
    let (no_at, no_port, no_colon) : IsTold r.registry r.repository (digest d) =
      subst (IsTold r.registry r.repository) (sym e) c.told in
    parse-append_digest (name_of r) d no_at
      (contains-name r.registry r.repository _ no_port refl no_colon)
    ∙ build_canonical r (some d) none c e
parse-suffix r (tag t) c e =
    let (no_at, no_colon, no_at', no_at'') : IsTold r.registry r.repository (tag t) =
      subst (IsTold r.registry r.repository) (sym e) c.told in
    parse-append_tag (name_of r) t no_at no_colon
      (contains-name r.registry r.repository _ no_at' refl no_at'')
    ∙ build_canonical r none (some t) c e

-- Printing a canonical reference and parsing it gives the reference back.
pub parse-display : (r : Reference) → IsCanonical r → parse (display r) ≡ ok r
parse-display r c = rw display_lem (parse-suffix r r.specifier c refl)
