-- ===== src/Reference.antt =====
-- src/reference.rs: image references, `Reference::parse` and `Display`.
pub mod Laws
pub mod Accepted
use pakstak.Base.{
  Text, codes, contains, is_empty, ◌==◌, Result, ok, err, ◌>>=◌, ◌>>◌, bail_if, ok_or, Bool, not,
  ◌&&◌, Option, none, some, List, [], ◌∷◌, ◌++◌, ℕ,
}
use pakstak.Base.Splits.{rsplit_once, split, join}

pub data Specifier : Type 0 where
  digest : Text → Specifier
  tag : Text → Specifier

unfoldable pub as_typeless_str : Specifier → Text
as_typeless_str (digest s) = s
as_typeless_str (tag s) = s

pub record Reference : Type 0 where
  pub registry : Text
  pub repository : Text
  pub specifier : Specifier

pub data ParseError : Type 0 where
  name_empty registry_not_explicit repository_missing : ParseError

-- `rsplit_once(c).map(|(n, d)| (n, Some(d))).unwrap_or((s, None))`
unfoldable pub at_last : ℕ → Text → Text × Option Text
at_last c s = elim (rsplit_once c s) [ none ↦ (s, none) | some (n, d) ↦ (n, some d) ]

next_part : List Text → Option (Text × List Text)
next_part [] = none
next_part (p ∷ ps) = some (p, ps)

unfoldable pub not_explicit : Text → Bool
not_explicit registry =
    not (contains registry b'.')
    && not (contains registry b':')
    && not (registry == codes "localhost")

abbrev latest : Text
latest = codes "latest"

unfoldable pub choose_specifier : Option Text → Option Text → Specifier
choose_specifier (some d) t = digest d
choose_specifier none (some t) = tag t
choose_specifier none none = tag latest

unfoldable pub build : Text → Option Text → Option Text → Result ParseError Reference
unfolding next_part
build name d t = do
  (registry, parts) ← ok_or (next_part (split b'/' name)) name_empty
  bail_if (not_explicit registry) registry_not_explicit
  let repository = join b'/' parts
  bail_if (is_empty repository) repository_missing
  ok (record { registry = registry; repository = repository; specifier = choose_specifier d t })

-- The digest is what follows the last `@`, the tag what follows the last `:` before it.
unfoldable pub parse : Text → Result ParseError Reference
parse input =
    let (name, d) = at_last b'@' input in let (name', t) = at_last b':' name in build name' d t

unfoldable pub suffix : Specifier → Text
suffix (digest d) = b'@' ∷ d
suffix (tag t) = b':' ∷ t

unfoldable pub display : Reference → Text
display r = r.registry ++ b'/' ∷ (r.repository ++ suffix r.specifier)
