-- ===== src/Storage/WhiteoutFrames.antt =====
-- How the conversion of whiteouts changes the files, by how its operations do.
use mathlib.Core.List.{append_assoc}
use pakstak.Base.{
  ℕ, zero, suc, Text, codes, ◌==◌, contains, contains-append, strip_prefix, strip_prefix_sound,
  Result, ok, err, Bool, true, false, Bool-cases, Option-cases, ◌⊎◌, inl, inr, some, refl, ==_iff,
  List, [], ◌∷◌, ◌++◌, All, ◌≡◌, ap, ◌∙◌, arith, length,
}
use pakstak.Fs.Paths.{FilePath, push, resolve, drop_last, IsPlain}
use pakstak.Fs.PathLaws.{
  push_plain, resolve-child, here, above, child, push-Leads, drop_last-append-cons,
}
use pakstak.Fs.Attributes
use pakstak.Fs.World
use pakstak.Fs.Files.{Files, Node, node_is_dir}
use pakstak.Fs.World.{IoKind, not_found, fault, symlink_metadata, create_dir_all}
use pakstak.Storage.Action.{io, do_io}
use pakstak.Storage.Frames.{
  Any, Framing, IsPreorder, Framing-pure, Framing-fail, Framing-check, Framing-bind, Framing-when,
  Framing-symlink_metadata, Framing-io_caught,
}
use pakstak.Storage.Removal.{Framing-read_dir, Framing-make_path_writable}
use pakstak.Storage.Whiteouts.{
  opaque_marker, opaque_name, whiteout_name, yes_value, has_opaque, oci_whiteout_target_name,
  set_overlay_xattr, remove_oci_whiteout_marker, hide_target, convert_oci_whiteout_marker,
  push_directory, convert_target, convert_entry, convert_entries, convert_directory,
  convert_pending, convert_oci_whiteouts_to_overlayfs,
}

plain_no_slash : (c : Text) → IsPlain c → contains c b'/' ≡ false
plain_no_slash c h = ground arith

target_no_slash :
    (name target : Text)
    → oci_whiteout_target_name name ≡ some target
    → IsPlain name
    → contains target b'/' ≡ false
unfolding oci_whiteout_target_name
target_no_slash name target h plain = elim (Option-cases (strip_prefix (codes ".wh.") name)) [
  | inl e ↦ ground (arith, e)
  | inr (rest, e) ↦
      let whole = strip_prefix_sound (codes ".wh.") name e in
      let parts = contains-append (codes ".wh.") rest b'/' in
      let slash = ap (λ x. contains x b'/') whole in
      ground (arith, e, parts, slash, plain_no_slash name plain)
]

-- The directory itself, or where a marker in it leads.
abbrev pub Touches : FilePath → FilePath → Type 0
Touches directory p =
    (p ≡ directory)
    ⊎ ((target : Text) × (contains target b'/' ≡ false) × (p ≡ push directory target))

abbrev pub IsMarker : Text → Type 0
IsMarker entry = (rest : Text) × (strip_prefix (codes ".wh.") entry ≡ some rest)

-- How the operations of the conversion of one directory change the files.
pub record Allows (Rel : Files → Files → Type 0) (directory : FilePath) : Type 0 where
  pub set_xattr :
      (p : FilePath) (key : Text)
      → Touches directory p
      → Framing Rel Any (do_io (Attributes.set_xattr p key yes_value))
  pub create_new :
      (p : FilePath) → Touches directory p → Framing Rel Any (do_io (Attributes.create_new p))
  pub set_permissions :
      (entry : Text) (mode : ℕ)
      → IsPlain entry
      → Framing Rel Any (do_io (World.set_permissions (push directory entry) mode))
  pub remove_file :
      (entry : Text)
      → IsPlain entry
      → IsMarker entry
      → Framing Rel Any (do_io (World.remove_file (push directory entry)))

IsMarker-opaque : (entry : Text) → (entry == opaque_marker) ≡ true → IsMarker entry
unfolding strip_prefix
IsMarker-opaque entry e =
    (codes ".wh..opq", ap (strip_prefix (codes ".wh.")) ((==_iff entry opaque_marker).0 e))

IsMarker-target :
    (entry target : Text) → oci_whiteout_target_name entry ≡ some target → IsMarker entry
unfolding oci_whiteout_target_name
IsMarker-target entry target h = elim (Option-cases (strip_prefix (codes ".wh.") entry)) [
  | inl e ↦ ground (arith, e, h)
  | inr m ↦ m
]

module _ {Rel : Files → Files → Type 0} (order : IsPreorder Rel) (directory : FilePath)
    (allows : Allows Rel directory) where
  pub Framing-set_overlay_xattr :
      (path : FilePath) (key : Text)
      → Touches directory path
      → Framing Rel Any (set_overlay_xattr path key yes_value)
  unfolding set_overlay_xattr
  Framing-set_overlay_xattr path key h =
      Framing-bind order _ _ (Framing-check order _ _) (λ _ _. allows.set_xattr path key h)

  pub Framing-remove_oci_whiteout_marker :
      (entry : Text)
      → IsPlain entry
      → IsMarker entry
      → Framing Rel Any (remove_oci_whiteout_marker (push directory entry))
  unfolding remove_oci_whiteout_marker
  Framing-remove_oci_whiteout_marker entry h m =
      Framing-bind order _ _ (Framing-symlink_metadata order (push directory entry)) λ metadata _.
        Framing-bind order _ _
          (Framing-make_path_writable order (push directory entry) metadata
            (λ mode. allows.set_permissions entry mode h))
          λ _ _. allows.remove_file entry h m

  pub Framing-hide_target :
      (target : Text) (found : Result IoKind Node)
      → contains target b'/' ≡ false
      → Framing Rel Any (hide_target (push directory target) found)
  unfolding hide_target
  Framing-hide_target target (ok metadata) h =
      Framing-when order (node_is_dir metadata) _
        (Framing-set_overlay_xattr _ opaque_name (inr (target, h, refl)))
  Framing-hide_target target (err not_found) h =
      Framing-bind order _ _ (allows.create_new _ (inr (target, h, refl)))
        (λ _ _. Framing-set_overlay_xattr _ whiteout_name (inr (target, h, refl)))
  Framing-hide_target target (err e) h = Framing-fail order (io e)

  Framing-convert_target :
      (is_opaque : Bool) (entry target : Text)
      → IsPlain entry
      → IsMarker entry
      → contains target b'/' ≡ false
      → Framing Rel Any (convert_target directory is_opaque entry target)
  unfolding convert_target convert_oci_whiteout_marker
  Framing-convert_target true entry target h m k = Framing-remove_oci_whiteout_marker entry h m
  Framing-convert_target false entry target h m k =
      Framing-bind order _ _
        (Framing-io_caught _ (Framing-symlink_metadata order (push directory target)))
        λ found _.
          Framing-bind order _ _ (Framing-hide_target target found k)
            λ _ _. Framing-remove_oci_whiteout_marker entry h m

  -- What is known of the pending directories.
  module _ (Good : FilePath → Type 0)
      (down : (entry : Text) → IsPlain entry → Good (push directory entry)) where
    Framing-push_directory :
        (path : FilePath) (pending : List FilePath)
        → Good path
        → All Good pending
        → Framing Rel (All Good) (push_directory path pending)
    unfolding push_directory
    Framing-push_directory path pending h k =
        Framing-bind order _ _ (Framing-symlink_metadata order path)
          λ metadata _. Framing-pure order _ (ground (arith, h, k))

    pub Framing-convert_entry :
        (is_opaque : Bool) (entry : Text) (pending : List FilePath)
        → IsPlain entry
        → All Good pending
        → Framing Rel (All Good) (convert_entry directory is_opaque entry pending)
    unfolding convert_entry
    Framing-convert_entry is_opaque entry pending plain k =
        elim (Bool-cases (entry == opaque_marker)) [
          | inl e ↦
              rw (e, convert_entry)
                (Framing-bind order _ _
                  (Framing-remove_oci_whiteout_marker entry plain (IsMarker-opaque entry e))
                  (λ _ _. Framing-pure order pending k))
          | inr e ↦ elim (Option-cases (oci_whiteout_target_name entry)) [
            | inl f ↦
                rw (e, f, convert_entry)
                  (Framing-push_directory (push directory entry) pending (down entry plain) k)
            | inr (target, f) ↦
                rw (e, f, convert_entry)
                  (Framing-bind order _ _
                    (Framing-convert_target is_opaque entry target plain
                      (IsMarker-target entry target f) (target_no_slash entry target f plain))
                    (λ _ _. Framing-pure order pending k))
          ]
        ]

    pub Framing-convert_entries :
        (is_opaque : Bool) (entries : List Text) (pending : List FilePath)
        → All IsPlain entries
        → All Good pending
        → Framing Rel (All Good) (convert_entries directory is_opaque entries pending)
    unfolding convert_entries
    Framing-convert_entries is_opaque [] pending plain k = Framing-pure order pending k
    Framing-convert_entries is_opaque (entry ∷ entries) pending (p, ps) k =
        Framing-bind order _ _ (Framing-convert_entry is_opaque entry pending p k)
          λ pending' k'. Framing-convert_entries is_opaque entries pending' ps k'

    pub Framing-convert_directory :
        (pending : List FilePath)
        → All Good pending
        → Framing Rel (All Good) (convert_directory directory pending)
    unfolding convert_directory
    Framing-convert_directory pending k =
        Framing-bind order _ _ (Framing-read_dir order directory) λ entries plain.
          Framing-bind order _ _
            (Framing-when order (has_opaque entries) _
              (Framing-set_overlay_xattr directory opaque_name (inl refl)))
            λ _ _. Framing-convert_entries (has_opaque entries) entries pending plain k

module _ {Rel : Files → Files → Type 0} (order : IsPreorder Rel) (Good : FilePath → Type 0)
    (allows : (directory : FilePath) → Good directory → Allows Rel directory)
    (down : (directory : FilePath) (entry : Text)
      → Good directory
      → IsPlain entry
      → Good (push directory entry)) where
  pub Framing-convert_pending :
      (fuel : ℕ) (pending : List FilePath)
      → All Good pending
      → Framing Rel Any (convert_pending fuel pending)
  unfolding convert_pending
  Framing-convert_pending fuel [] k = Framing-pure order tt tt
  Framing-convert_pending zero (directory ∷ pending) k = Framing-fail order (io fault)
  Framing-convert_pending (suc fuel) (directory ∷ pending) (h, k) =
      Framing-bind order _ _
        (Framing-convert_directory order directory (allows directory h) Good
          (λ entry. down directory entry h) pending k)
        λ pending' k'. Framing-convert_pending fuel pending' k'

  pub Framing-convert_oci_whiteouts_to_overlayfs :
      (path : FilePath) → Good path → Framing Rel Any (convert_oci_whiteouts_to_overlayfs path)
  unfolding convert_oci_whiteouts_to_overlayfs
  Framing-convert_oci_whiteouts_to_overlayfs path h = record {
    framed = λ w. (Framing-convert_pending (suc (length w.files)) (path ∷ []) (h, tt)).framed w;
    result = λ w a _. tt;
  }

abbrev pub IsIn : FilePath → FilePath → Type 0
IsIn top path = (r : FilePath) × (resolve path ≡ top ++ r)

-- The layer is unpacked to the entry `name` of `top`.
module _ (top : FilePath) (name : Text) where
  abbrev pub IsUnder : FilePath → Type 0
  IsUnder path = (r : FilePath) × (resolve path ≡ top ++ name ∷ r)

  IsUnder-IsIn : (path : FilePath) → IsUnder path → IsIn top path
  IsUnder-IsIn path (r, e) = (name ∷ r, e)

  pub IsUnder-push : (path : FilePath) (c : Text) → IsUnder path → IsPlain c → IsUnder (push path c)
  IsUnder-push path c (r, e) h = (
    r ++ c ∷ [],
    ap resolve (push_plain path c h)
        ∙ resolve-child path c h
        ∙ ap (λ x. x ++ c ∷ []) e
        ∙ append_assoc top (name ∷ r) (c ∷ []),
  )

  pub IsIn-push : (path : FilePath) (c : Text) → IsUnder path → IsPlain c → IsIn top (push path c)
  IsIn-push path c h p = IsUnder-IsIn (push path c) (IsUnder-push path c h p)

  pub IsIn-Touches : (path p : FilePath) → IsUnder path → Touches path p → IsIn top p
  IsIn-Touches path p h (inl e) = rw e (IsUnder-IsIn path h)
  IsIn-Touches path p (r, e) (inr (c, h, at)) = rw at (elim (push-Leads path c h) [
    | here f ↦ (name ∷ r, f ∙ e)
    | above f ↦ (drop_last (name ∷ r), f ∙ ap drop_last e ∙ drop_last-append-cons top name r)
    | child plain f ↦ IsIn-push path c (r, e) plain
  ])
