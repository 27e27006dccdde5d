-- ===== src/Tests/References.antt =====
-- Image references: the tests of src/reference.rs, and the theorems at concrete references.
use pakstak.Base.{Text, codes, Result, ok, err, ◌≡◌, refl, false, contains, is_empty, ◌==◌}
use pakstak.Base.Splits.{rsplit_once, split, join}
use pakstak.Reference.{
  repository_missing, digest, tag, Reference, ParseError, registry_not_explicit, at_last,
  not_explicit, build, choose_specifier, parse, display,
}
use pakstak.Reference.Laws.{IsCanonical, parse-display}
use pakstak.Reference.Accepted.{parse_accepts, parse-display-parse, parse_port}

run : Text → Result ParseError Reference
unfolding parse at_last build not_explicit choose_specifier rsplit_once split join ◌==◌
run = parse

abbrev container : Reference
container = record {
  registry = codes "ghcr.io";
  repository = codes "org/container";
  specifier = tag (codes "1.2.3");
}

rejects_reference_without_registry : run (codes "image") ≡ err registry_not_explicit
unfolding run
rejects_reference_without_registry = refl

rejects_namespace_reference : run (codes "username/image:latest") ≡ err registry_not_explicit
unfolding run
rejects_namespace_reference = refl

parses_explicit_registry_tag : run (codes "ghcr.io/org/container:1.2.3") ≡ ok container
unfolding run
parses_explicit_registry_tag = refl

parses_tagged_digest_reference :
    run (codes "example.com/org/container:1.2.3@sha256:abc")
    ≡ ok (record {
      registry = codes "example.com";
      repository = codes "org/container";
      specifier = digest (codes "sha256:abc");
    })
unfolding run
parses_tagged_digest_reference = refl

container-IsCanonical : IsCanonical container
unfolding run
container-IsCanonical = record {
  explicit = refl;
  no_slash = refl;
  has_repository = refl;
  told = (refl, refl, refl, refl);
}

parse-display_example : run (display container) ≡ ok container
unfolding run
parse-display_example = parse-display container container-IsCanonical

parse_accepts_example :
    (not_explicit (codes "ghcr.io") ≡ false)
    × (contains (codes "ghcr.io") b'/' ≡ false)
    × (is_empty (codes "org/container") ≡ false)
unfolding run
parse_accepts_example =
    parse_accepts (codes "ghcr.io/org/container:1.2.3") container parses_explicit_registry_tag

parse-display-parse_example : run (display container) ≡ ok container
unfolding run
parse-display-parse_example =
    parse-display-parse (codes "ghcr.io/org/container:1.2.3") container (codes "1.2.3")
      parses_explicit_registry_tag refl

parse_port_example : run (codes "localhost:5000/org/app") ≡ err repository_missing
unfolding run
parse_port_example =
    parse_port (codes "localhost") (codes "5000") (codes "org/app") refl refl refl refl
