-- ===== src/Storage/Hiding.antt =====
-- What hides the content of lower layers: the markers of OCI, and what overlayfs reads. The
-- operations of the conversion of whiteouts hide no less than there was.
use pakstak.Base.{
  ℕ, Text, codes, ◌==◌, strip_prefix, Bool, true, false, not, ◌&&◌, ◌||◌, ◌≡◌, ◌≢◌, ◌⊎◌, inl, inr,
  refl, ap, ◌∙◌, Option, Option-cases, none, some, [], ◌∷◌, ◌++◌, arith, Bool-cases,
}
use pakstak.Fs.Paths.{FilePath, push, resolve, path_dec}
use pakstak.Fs.PathLaws.{push_plain, resolve-child, append-single_injective}
use pakstak.Fs.Files.{Files, Node, lookup, put, node_is_dir, is_dir_at, exists_at, regular_file}
use pakstak.Fs.FileLaws.{lookup-put, lookup-without}
use pakstak.Fs.DirectoryLaws.{
  KeepsDirs, KeepsDirs-refl, KeepsDirs-trans, set_xattr_at-KeepsDirs, set_mode_at-KeepsDirs,
  create_new_at-KeepsDirs, remove_file_at-KeepsDirs,
}
use pakstak.Fs.Attributes.{
  xattr, with_xattr, set_xattr_at, set_xattr_at-cases, create_new_at, set_xattr, create_new,
}
use pakstak.Fs.World.{set_mode_at, remove_file_at, set_permissions, remove_file}
use pakstak.Storage.Frames.{IsPreorder, Framing-operation}
use pakstak.Storage.Whiteouts.{opaque_marker, yes_value}
use pakstak.Storage.WhiteoutFrames.{Allows, IsMarker}

abbrev pub is_yes : Option Text → Bool
is_yes none = false
is_yes (some v) = v == codes "y"

-- What overlayfs reads where it is mounted with `userxattr`.
abbrev pub overlay_opaque : Text
overlay_opaque = codes "user.overlay.opaque"

abbrev pub overlay_whiteout : Text
overlay_whiteout = codes "user.overlay.whiteout"

abbrev pub is_opaque : Node → Bool
is_opaque n = is_yes (xattr overlay_opaque n.xattrs)

-- Overlayfs shows nothing at a whiteout.
abbrev pub is_whiteout : Node → Bool
is_whiteout n = not (node_is_dir n) && is_yes (xattr overlay_whiteout n.xattrs)

-- Whether overlayfs shows what the layer itself has at a path.
unfoldable pub shows_own : FilePath → Files → Bool
shows_own q fs = elim (lookup q fs) [ none ↦ false | some n ↦ not (is_whiteout n) ]

-- A directory that overlayfs does not merge with those of lower layers.
unfoldable pub is_opaque_dir : FilePath → Files → Bool
is_opaque_dir p fs = elim (lookup p fs) [ none ↦ false | some n ↦ node_is_dir n && is_opaque n ]

-- What stands here, a whiteout or another file or an opaque directory, covers what is below. What is
-- shown in its place is another question, for `shows_own`.
unfoldable pub hides_lower : FilePath → Files → Bool
hides_lower q fs = elim (lookup q fs) [ none ↦ false | some n ↦ not (node_is_dir n) || is_opaque n ]

-- No marker.
abbrev pub IsProper : Text → Type 0
IsProper name = strip_prefix (codes ".wh.") name ≡ none

abbrev pub marker_of : Text → Text
marker_of name = codes ".wh." ++ name

-- Whether a layer hides the entry `name` that lower layers have in a directory: as OCI reads the
-- layer, and as overlayfs does.
abbrev pub OciHides : FilePath → Text → Files → Type 0
OciHides dir name fs =
    (exists_at (dir ++ opaque_marker ∷ []) fs ≡ true)
    ⊎ ((exists_at (dir ++ marker_of name ∷ []) fs ≡ true)
        ⊎ ((exists_at (dir ++ name ∷ []) fs && not (is_dir_at (dir ++ name ∷ []) fs)) ≡ true))

abbrev pub OverlayHides : FilePath → Text → Files → Type 0
OverlayHides dir name fs = (is_opaque_dir dir fs || hides_lower (dir ++ name ∷ []) fs) ≡ true

-- What overlayfs shows of the layer itself at a path, the layer has had there.
abbrev pub OnlyOwn : FilePath → Files → Files → Type 0
OnlyOwn q fs fs' = (shows_own q fs' ≡ false) ⊎ (shows_own q fs ≡ true)

-- What was hidden stays so. Files may be gone, but only markers in the directories of `P`.
pub record Hides (P : FilePath → Type 0) (fs fs' : Files) : Type 0 where
  pub opaque : (q : FilePath) → is_opaque_dir q fs ≡ true → is_opaque_dir q fs' ≡ true
  pub covered :
      (dir : FilePath) (name : Text)
      → IsProper name
      → hides_lower (dir ++ name ∷ []) fs ≡ true
      → hides_lower (dir ++ name ∷ []) fs' ≡ true
  pub dirs : KeepsDirs fs fs'
  pub there :
      (dir : FilePath) (name : Text)
      → (P dir → ⊥)
      → exists_at (dir ++ name ∷ []) fs ≡ true
      → exists_at (dir ++ name ∷ []) fs' ≡ true

module _ {P : FilePath → Type 0} where
  pub Hides-IsPreorder : IsPreorder (Hides P)
  Hides-IsPreorder = record {
    reflexive = λ fs. record {
      opaque = λ q h. h;
      covered = λ dir name p h. h;
      dirs = KeepsDirs-refl fs;
      there = λ dir name p h. h;
    };
    transitive = λ fs gs hs h k. record {
      opaque = λ q x. k.opaque q (h.opaque q x);
      covered = λ dir name p x. k.covered dir name p (h.covered dir name p x);
      dirs = KeepsDirs-trans fs gs hs h.dirs k.dirs;
      there = λ dir name p x. k.there dir name p (h.there dir name p x);
    };
  }

  Same : (fs : Files) → Hides P fs fs
  Same fs = Hides-IsPreorder.reflexive fs

-- A node in the place of another one of its kind that is opaque where that was.
module _ (p : FilePath) (n m : Node) (fs : Files) (at : lookup p fs ≡ some n)
    (kind : m.kind ≡ n.kind) (richer : is_opaque n ≡ true → is_opaque m ≡ true) where
  same_dir : node_is_dir m ≡ node_is_dir n
  same_dir = rw kind refl

  put-opaque : (q : FilePath) → is_opaque_dir q fs ≡ true → is_opaque_dir q (put p m fs) ≡ true
  unfolding is_opaque_dir
  put-opaque q h = elim (path_dec p q) [
    | yes e ↦ ground (arith, lookup-put p q m fs, at, ap (λ y. lookup y fs) e, same_dir, richer)
    | no e ↦ ground (arith, lookup-put p q m fs)
  ]

  put-covered : (q : FilePath) → hides_lower q fs ≡ true → hides_lower q (put p m fs) ≡ true
  unfolding hides_lower
  put-covered q h = elim (path_dec p q) [
    | yes e ↦ ground (arith, lookup-put p q m fs, at, ap (λ y. lookup y fs) e, same_dir, richer)
    | no e ↦ ground (arith, lookup-put p q m fs)
  ]

put-there :
    (p q : FilePath) (m : Node) (fs : Files)
    → exists_at q fs ≡ true
    → exists_at q (put p m fs) ≡ true
unfolding exists_at
put-there p q m fs h = ground (arith, lookup-put p q m fs)

-- Setting `yes` keeps what was opaque.
with_xattr-is_opaque :
    (key : Text) (n : Node) → is_opaque n ≡ true → is_opaque (with_xattr key yes_value n) ≡ true
unfolding xattr ◌==◌
with_xattr-is_opaque key n h = elim (Bool-cases (overlay_opaque == key)) [
  | inl e ↦ rw e refl
  | inr e ↦ rw e h
]

module _ {P : FilePath → Type 0} where
  put-Hides :
      (p : FilePath) (n m : Node) (fs : Files)
      → lookup p fs ≡ some n
      → m.kind ≡ n.kind
      → (is_opaque n ≡ true → is_opaque m ≡ true)
      → KeepsDirs fs (put p m fs)
      → Hides P fs (put p m fs)
  put-Hides p n m fs at kind richer kept = record {
    opaque = put-opaque p n m fs at kind richer;
    covered = λ dir name _. put-covered p n m fs at kind richer (dir ++ name ∷ []);
    dirs = kept;
    there = λ dir name _. put-there p (dir ++ name ∷ []) m fs;
  }

  set_xattr_at-Hides :
      (p : FilePath) (key : Text) (fs : Files) → Hides P fs (set_xattr_at p key yes_value fs).1
  set_xattr_at-Hides p key fs = elim (set_xattr_at-cases p key yes_value fs) [
    | inl e ↦ rw e (Same fs)
    | inr (n, at, e) ↦
        let kept : KeepsDirs fs (put p (with_xattr key yes_value n) fs) =
          rw e at (set_xattr_at-KeepsDirs p key yes_value fs) in
        rw e
          (put-Hides p n (with_xattr key yes_value n) fs at refl (with_xattr-is_opaque key n) kept)
  ]

  set_mode_at-Hides : (p : FilePath) (mode : ℕ) (fs : Files) → Hides P fs (set_mode_at p mode fs).1
  unfolding set_mode_at
  set_mode_at-Hides p mode fs =
      let kept = set_mode_at-KeepsDirs p mode fs in
      elim (Option-cases (lookup p fs)) [
        | inl e ↦ rw (e, set_mode_at) (Same fs)
        | inr (n, e) ↦
            let kept' : KeepsDirs fs (put p (record n { mode = mode }) fs) =
              rw (e, set_mode_at) at kept in
            rw (e, set_mode_at) (put-Hides p n (record n { mode = mode }) fs e refl (λ h. h) kept')
      ]

  create_new_at-Hides : (p : FilePath) (fs : Files) → Hides P fs (create_new_at p fs).1
  unfolding create_new_at is_opaque_dir hides_lower exists_at
  create_new_at-Hides p fs = record {
    opaque = λ q h. ground (arith, lookup-put p q (regular_file []) fs);
    covered = λ dir name _ h. ground (arith, lookup-put p (dir ++ name ∷ []) (regular_file []) fs);
    dirs = create_new_at-KeepsDirs p fs;
    there = λ dir name _ h. ground (arith, lookup-put p (dir ++ name ∷ []) (regular_file []) fs);
  }

  remove_file_at-Hides :
      (dir : FilePath) (entry : Text) (fs : Files)
      → P dir
      → IsMarker entry
      → Hides P fs (remove_file_at (dir ++ entry ∷ []) fs).1
  unfolding remove_file_at is_opaque_dir hides_lower exists_at
  remove_file_at-Hides dir entry fs p (rest, m) = record {
    opaque = λ q h. ground (arith, lookup-without (dir ++ entry ∷ []) q fs);
    covered = λ d name proper h.
        let other : (dir ++ entry ∷ []) ≢ (d ++ name ∷ []) =
          λ e. not_both name proper (append-single_injective dir d entry name e).1 in
        ground (arith, other, lookup-without (dir ++ entry ∷ []) (d ++ name ∷ []) fs);
    dirs = remove_file_at-KeepsDirs (dir ++ entry ∷ []) fs;
    there = λ d name out h.
        let other : (dir ++ entry ∷ []) ≢ (d ++ name ∷ []) =
          λ e. out (rw (← (append-single_injective dir d entry name e).0) p) in
        ground (arith, other, lookup-without (dir ++ entry ∷ []) (d ++ name ∷ []) fs);
  }
    where
      not_both : (name : Text) → IsProper name → entry ≡ name → ⊥
      not_both name proper e = cc (m, proper, ap (strip_prefix (codes ".wh.")) e)

  pub Hides-Allows : (directory : FilePath) → P (resolve directory) → Allows (Hides P) directory
  unfolding set_xattr create_new set_permissions remove_file
  Hides-Allows directory at = record {
    set_xattr = λ p key h.
        Framing-operation Hides-IsPreorder _ _ (λ fs. set_xattr_at-Hides (resolve p) key fs)
          (λ n fs. Same fs);
    create_new = λ p h.
        Framing-operation Hides-IsPreorder _ _ (λ fs. create_new_at-Hides (resolve p) fs)
          (λ n fs. Same fs);
    set_permissions = λ c mode h.
        Framing-operation Hides-IsPreorder _ _
          (λ fs. set_mode_at-Hides (resolve (push directory c)) mode fs) (λ n fs. Same fs);
    remove_file = λ c h m.
        Framing-operation Hides-IsPreorder _ _
          (λ fs.
            rw (ap resolve (push_plain directory c h) ∙ resolve-child directory c h)
              (remove_file_at-Hides (resolve directory) c fs at m))
          (λ n fs. Same fs);
  }
