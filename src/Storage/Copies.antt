-- ===== src/Storage/Copies.antt =====
-- Where a container and its temporary copy stand.
use mathlib.Core.List.{append_assoc, append-nil}
use pakstak.Base.{Text, codes, ◌==◌, ◌≡◌, ◌≢◌, refl, ap, sym, ◌∙◌, none, some, [], ◌∷◌, ◌++◌, arith}
use pakstak.Fs.Paths.{FilePath, push, parent, resolve, IsPlain}
use pakstak.Fs.PathLaws.{push_plain, resolve-child, resolve-plain, parent-child}
use pakstak.Fs.Files.{strip}
use pakstak.Fs.FileLaws.{strip-cancel, strip-ne, ne_of_strip, strip-child, strip-append-eq-none}

abbrev pub home_of : FilePath → Text → FilePath
home_of root container = resolve root ++ codes "containers" ∷ container ∷ []

module _ (root : FilePath) (container : Text) where
  abbrev base : FilePath
  base = resolve root

  abbrev home : FilePath
  home = base ++ codes "containers" ∷ container ∷ []

  abbrev copy : FilePath
  copy = base ++ codes "temporary" ∷ container ∷ []

  abbrev copy_path : FilePath
  copy_path = push (push root (codes "temporary")) container

  abbrev home_path : FilePath
  home_path = push (push root (codes "containers")) container

  abbrev digest_name : Text
  digest_name = codes "manifest_digest"

  abbrev reference_name : Text
  reference_name = codes "reference.json"

  abbrev containers : FilePath
  containers = base ++ codes "containers" ∷ []

  pub under_home : (r x : FilePath) → strip (home ++ r) (base ++ codes "temporary" ∷ x) ≡ none
  under_home r x =
      ap (λ p. strip p (base ++ codes "temporary" ∷ x))
        (append_assoc base (codes "containers" ∷ container ∷ []) r)
      ∙ strip-cancel base (codes "containers" ∷ container ∷ r) (codes "temporary" ∷ x)
      ∙ strip-ne _ _ _ _ (grind arith)

  pub under_copy : (r x : FilePath) → strip (copy ++ r) (base ++ codes "containers" ∷ x) ≡ none
  under_copy r x =
      ap (λ p. strip p (base ++ codes "containers" ∷ x))
        (append_assoc base (codes "temporary" ∷ container ∷ []) r)
      ∙ strip-cancel base (codes "temporary" ∷ container ∷ r) (codes "containers" ∷ x)
      ∙ strip-ne _ _ _ _ (grind arith)

  pub home_outside : (r : FilePath) → strip (home ++ r) containers ≡ none
  home_outside r =
      ap (λ p. strip (p ++ r) containers)
        (sym (append_assoc base (codes "containers" ∷ []) (container ∷ [])))
      ∙ strip-append-eq-none (containers ++ container ∷ []) r containers
          (strip-child containers container)

  pub child_outside : (x : Text) (r : FilePath) → home ++ r ≢ copy ++ x ∷ []
  child_outside x r e =
      let apart =
        ap (strip (home ++ r)) (append_assoc base (codes "temporary" ∷ container ∷ []) (x ∷ []))
        ∙ under_home r (container ∷ x ∷ []) in
      ne_of_strip (home ++ r) (copy ++ x ∷ []) apart (sym e)

  pub names_differ : copy ++ digest_name ∷ [] ≢ copy ++ reference_name ∷ []
  names_differ e =
      let apart =
        strip-cancel copy (reference_name ∷ []) (digest_name ∷ [])
        ∙ strip-ne reference_name digest_name [] [] (grind arith) in
      ne_of_strip (copy ++ reference_name ∷ []) (copy ++ digest_name ∷ []) apart e

  pub apart : strip copy home ≡ none
  apart = ap (λ p. strip p home) (sym (append-nil copy)) ∙ under_copy [] (container ∷ [])

  module _ (plain : IsPlain container) where
    pub at_copy : resolve copy_path ≡ copy
    unfolding ◌==◌
    at_copy =
        ap resolve (
          push_plain (push root (codes "temporary")) container plain
          ∙ ap (λ p. p ++ container ∷ []) (push_plain root (codes "temporary") refl)
          ∙ append_assoc root (codes "temporary" ∷ []) (container ∷ []))
        ∙ resolve-plain root (codes "temporary" ∷ container ∷ []) (refl, (plain, tt))

    pub at_child : (x : Text) → IsPlain x → resolve (push copy_path x) ≡ copy ++ x ∷ []
    at_child x h =
        ap resolve (push_plain copy_path x h)
        ∙ resolve-child copy_path x h
        ∙ ap (λ p. p ++ x ∷ []) at_copy

    pub at_containers : resolve (push root (codes "containers")) ≡ containers
    unfolding ◌==◌
    at_containers =
        ap resolve (push_plain root (codes "containers") refl)
        ∙ resolve-child root (codes "containers") refl

    pub at_home : resolve home_path ≡ home
    at_home =
        ap resolve (push_plain (push root (codes "containers")) container plain)
        ∙ resolve-child (push root (codes "containers")) container plain
        ∙ ap (λ p. p ++ container ∷ []) at_containers
        ∙ append_assoc base (codes "containers" ∷ []) (container ∷ [])

    pub parent_is : parent home_path ≡ some (push root (codes "containers"))
    parent_is =
        ap parent (push_plain (push root (codes "containers")) container plain)
        ∙ parent-child (push root (codes "containers")) container
