-- ===== src/Reference/Accepted.antt =====
-- What `Reference::parse` accepts, and what it makes of a registry with a port.
use pakstak.Base.{
  Text, contains, contains-append, is_empty, ok, err, false, Option, none, some, List, [], ◌∷◌,
  ◌++◌, ℕ, ◌≡◌, refl, ◌∙◌, inl, inr, arith, Option-cases, List-cases, sym, subst, ap, if◌then◌else◌,
}
use pakstak.Base.Splits
use pakstak.Base.Splits.{rsplit_once, split, join}
use pakstak.Reference.{
  tag, Reference, registry_not_explicit, repository_missing, at_last, not_explicit, build,
  choose_specifier, parse, display,
}
use pakstak.Reference.Laws.{IsCanonical, IsTold, parse-display, at_last-append, at_last_absent}

-- What `at_last` finds: the text itself with no occurrence, or the two sides of the last one.
abbrev AtLast : ℕ → Text → Text → Option Text → Type 0
AtLast c s n none = (s ≡ n) × (contains s c ≡ false)
AtLast c s n (some b) = (s ≡ n ++ c ∷ b) × (contains b c ≡ false)

at_last-AtLast : (c : ℕ) (s : Text) → AtLast c s (at_last c s).0 (at_last c s).1
unfolding at_last
at_last-AtLast c s = elim (Option-cases (rsplit_once c s)) [
  | inl e ↦ rw (e, at_last) (refl, Splits.rsplit_once_absent c s e)
  | inr (p, e) ↦ rw (e, at_last) (Splits.rsplit_once_sound c s {a = p.0} {b = p.1} e)
]

-- What `build` made its reference of.
record Built (name : Text) (d t : Option Text) (r : Reference) : Type 0 where
  name_parts : name ≡ r.registry ++ b'/' ∷ r.repository
  explicit : not_explicit r.registry ≡ false
  no_slash : contains r.registry b'/' ≡ false
  has_repository : is_empty r.repository ≡ false
  specifier : r.specifier ≡ choose_specifier d t

join-cons :
    (p : Text) (ps : List Text)
    → is_empty (join b'/' ps) ≡ false
    → join b'/' (p ∷ ps) ≡ p ++ b'/' ∷ join b'/' ps
unfolding join
join-cons p [] h = cc
join-cons p (q ∷ ps) h = refl

build_inv :
    (name p : Text) (ps : List Text) (d t : Option Text) (r : Reference)
    → split b'/' name ≡ p ∷ ps
    → build name d t ≡ ok r
    → (not_explicit r.registry ≡ false)
      × (is_empty r.repository ≡ false)
      × (r.registry ≡ p)
      × (r.repository ≡ join b'/' ps)
      × (r.specifier ≡ choose_specifier d t)
unfolding build
build_inv name p ps d t r e h = ground arith

build-Built :
    (name : Text) (d t : Option Text) (r : Reference) → build name d t ≡ ok r → Built name d t r
build-Built name d t r h = elim (List-cases (split b'/' name)) [
  | inl e ↦ absurd (Splits.split-ne-nil b'/' name e)
  | inr (p, ps, e) ↦
      let (explicit, full, reg, repo, spec) = build_inv name p ps d t r e h in
      record {
        name_parts =
            sym (Splits.join-split b'/' name)
            ∙ ap (join b'/') e
            ∙ join-cons p ps (rw repo at full)
            ∙ cc (reg, repo);
        explicit = explicit;
        no_slash = rw reg (Splits.split_head b'/' name e);
        has_repository = full;
        specifier = spec;
      }
]

-- A reference is accepted only with an explicit registry, which has no slash, and a repository.
pub parse_accepts :
    (input : Text) (r : Reference)
    → parse input ≡ ok r
    → (not_explicit r.registry ≡ false)
      × (contains r.registry b'/' ≡ false)
      × (is_empty r.repository ≡ false)
unfolding parse
parse_accepts input r h =
    let b = build-Built _ _ _ r h in (b.explicit, b.no_slash, b.has_repository)

contains-append_inv :
    (a b : Text) (c : ℕ)
    → contains (a ++ b) c ≡ false
    → (contains a c ≡ false) × (contains b c ≡ false)
contains-append_inv a b c h = ground (arith, contains-append a b c)

-- A name without `@` has none in its parts.
name_told :
    (registry repository : Text) (c : ℕ)
    → contains (registry ++ b'/' ∷ repository) c ≡ false
    → (contains registry c ≡ false) × (contains repository c ≡ false)
name_told registry repository c h = ground (arith, contains-append registry (b'/' ∷ repository) c)

-- Where the specifier is a tag there was no `@`, and no `:` in the tag.
tag_told :
    (input name name' v : Text) (d t : Option Text)
    → AtLast b'@' input name d
    → AtLast b':' name name' t
    → choose_specifier d t ≡ tag v
    → (contains v b'@' ≡ false) × (contains v b':' ≡ false) × (contains name' b'@' ≡ false)
unfolding choose_specifier
tag_told input name name' v (some d) t a b e = cc
tag_told input name name' v none none a b e = ground arith
tag_told input name name' v none (some t) a b e =
    ground (arith, contains-append name' (b':' ∷ t) b'@')

parse-IsCanonical :
    (input : Text) (r : Reference) (v : Text)
    → parse input ≡ ok r
    → r.specifier ≡ tag v
    → IsCanonical r
unfolding parse
parse-IsCanonical input r v h e =
    let (name, d) = at_last b'@' input in
    let (name', t) = at_last b':' name in
    let b : Built name' d t r = build-Built name' d t r h in
    let (no_at, no_colon, rest) =
      tag_told input name name' v d t (at_last-AtLast b'@' input) (at_last-AtLast b':' name)
        (sym b.specifier ∙ e) in
    let (reg, repo) = name_told r.registry r.repository b'@' (rw b.name_parts at rest) in
    record {
      explicit = b.explicit;
      no_slash = b.no_slash;
      has_repository = b.has_repository;
      told = subst (IsTold r.registry r.repository) (sym e) (no_at, no_colon, reg, repo);
    }

-- A reference parsed to a tag is printed to a text that parses to the same reference.
pub parse-display-parse :
    (input : Text) (r : Reference) (v : Text)
    → parse input ≡ ok r
    → r.specifier ≡ tag v
    → parse (display r) ≡ ok r
parse-display-parse input r v h e = parse-display r (parse-IsCanonical input r v h e)

-- With no tag the port of a registry is taken for one: no such reference is accepted.
pub parse_port :
    (host port repository : Text)
    → contains host b'@' ≡ false
    → contains host b'/' ≡ false
    → contains (port ++ b'/' ∷ repository) b'@' ≡ false
    → contains (port ++ b'/' ∷ repository) b':' ≡ false
    → parse (host ++ b':' ∷ (port ++ b'/' ∷ repository))
      ≡ err (if not_explicit host then registry_not_explicit else repository_missing)
unfolding parse build join
parse_port host port repository no_at no_slash rest_at rest_colon =
    let s = host ++ b':' ∷ (port ++ b'/' ∷ repository) in
    rw
      (
        at_last_absent b'@' s
            (ground (arith, contains-append host (b':' ∷ (port ++ b'/' ∷ repository)) b'@')),
        at_last-append b':' host (port ++ b'/' ∷ repository) rest_colon,
        Splits.split-eq-singleton b'/' host no_slash,
      )
      (ground arith)
