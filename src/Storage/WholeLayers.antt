-- ===== src/Storage/WholeLayers.antt =====
-- `write_layer` at any point of the file system and with any operation cut short.
use mathlib.Core.List.{append_assoc}
use pakstak.Base.{
  Text, codes, ◌==◌, Result, ok, err, none, some, [], ◌∷◌, ◌++◌, true, ◌≡◌, ◌≢◌, refl, ap, sym, ◌∙◌,
  arith, take,
}
use pakstak.Digest.Verifier.{Algorithm}
use pakstak.Network.{Body}
use pakstak.Formats.{LayerFormat}
use pakstak.Fs.Paths.{FilePath, push, parent, resolve, IsPlain}
use pakstak.Fs.PathLaws.{push_plain, resolve-child, parent-child, file_name-push}
use pakstak.Fs.Files.{Files, strip, lookup, is_dir_at}
use pakstak.Fs.FileLaws.{strip-apart, strip-child, strip-append-eq-none, strip-take}
use pakstak.Fs.Directories.{create_below-there, is_dir_at_moved, is_dir_at-Unharmed}
use pakstak.Fs.Effects.{
  create_below_outside, create_below-Unharmed, lookup-rename_at, rename_at_failed,
}
use pakstak.Fs.World.{World, create_dir_all, create_below, rename, rename_at}
use pakstak.Storage.Action.{StorageError, ◌>>=◌, ◌>>◌, do_io, caught}
use pakstak.Storage.Triple.{Post, Triple, Triple-bind, Triple-files}
use pakstak.Storage.Layout.{storage_at}
use pakstak.Storage.Reader.{ensure_parent_dir}
use pakstak.Storage.Writer.{publish_directory}
use pakstak.Storage.Leaving.{SameOn, IsClear}
use pakstak.Storage.Removal.{Leaving-remove_dir_all_writable}
use pakstak.Storage.Layers.{Archives, extract_layer, publish_extracted, write_layer}
use pakstak.Storage.Extraction.{IsVerified}
use pakstak.Storage.Unpacking.{IsConfined, Framing-extract_layer}
use pakstak.Prune.Protected.{resolve-in, resolve-temporary}

-- After a success the layer is there, and its bytes were those of the digest; after a failure nothing
-- at or below it has changed.
abbrev pub LayerWhole :
    (Algorithm → Text → Text)
    → FilePath
    → Body
    → Text
    → Files
    → Result StorageError (Unit {0}) × World
    → Type 0
LayerWhole hash home body digest fs =
    Post (λ _ w. (is_dir_at home w.files ≡ true) × IsVerified hash body digest)
      (λ w. (r : FilePath) → lookup (home ++ r) w.files ≡ lookup (home ++ r) fs)

module _ (hash : Algorithm → Text → Text) (archives : Archives) (confined : IsConfined archives)
    (root : FilePath) (digest : Text) (plain : IsPlain digest) (body : Body) (fs : Files) where
  abbrev base : FilePath
  base = resolve root

  abbrev top : FilePath
  top = base ++ codes "temporary" ∷ []

  abbrev copy : FilePath
  copy = base ++ codes "temporary" ∷ digest ∷ []

  abbrev home : FilePath
  home = base ++ codes "layers" ∷ digest ∷ []

  abbrev layers : FilePath
  layers = base ++ codes "layers" ∷ []

  abbrev copy_path : FilePath
  copy_path = push (push root (codes "temporary")) digest

  abbrev home_path : FilePath
  home_path = push (push root (codes "layers")) digest

  abbrev AtHome : FilePath → Type 0
  AtHome q = (r : FilePath) × (q ≡ home ++ r)

  at_copy : resolve copy_path ≡ copy
  at_copy = resolve-temporary root digest plain

  at_home : resolve home_path ≡ home
  unfolding ◌==◌
  at_home = resolve-in root (codes "layers") digest refl plain

  names_differ : codes "temporary" ≢ codes "layers"
  names_differ = grind arith

  home_below : (r : FilePath) → home ++ r ≡ base ++ codes "layers" ∷ digest ∷ r
  home_below r = append_assoc base (codes "layers" ∷ digest ∷ []) r

  top_clear : (r : FilePath) → IsClear AtHome (top ++ r)
  top_clear r q (x, e) =
      rw (e, home_below x, append_assoc base (codes "temporary" ∷ []) r)
        (strip-apart base (codes "temporary") (codes "layers") r (digest ∷ x) names_differ)

  copy_clear : IsClear AtHome (resolve copy_path)
  copy_clear =
      rw (at_copy, ← append_assoc base (codes "temporary" ∷ []) (digest ∷ []))
        (top_clear (digest ∷ []))

  copy_off : (r : FilePath) → strip (home ++ r) copy ≡ none
  copy_off r = rw (home_below r) (
      strip-apart base (codes "layers") (codes "temporary") (digest ∷ r) (digest ∷ [])
        (λ e. names_differ (sym e)))

  layers_off : (r : FilePath) → strip (home ++ r) layers ≡ none
  layers_off r =
      ap (λ p. strip (p ++ r) layers) (sym (append_assoc base (codes "layers" ∷ []) (digest ∷ [])))
      ∙ strip-append-eq-none (layers ++ digest ∷ []) r layers (strip-child layers digest)

  copy_apart : strip copy home ≡ none
  copy_apart =
      strip-apart base (codes "temporary") (codes "layers") (digest ∷ []) (digest ∷ []) names_differ

  at_layers : resolve (push root (codes "layers")) ≡ layers
  unfolding ◌==◌
  at_layers =
      ap resolve (push_plain root (codes "layers") refl) ∙ resolve-child root (codes "layers") refl

  home_parent : parent home_path ≡ some (push root (codes "layers"))
  home_parent =
      ap parent (push_plain (push root (codes "layers")) digest plain)
      ∙ parent-child (push root (codes "layers")) digest

  abbrev Untouched : Files → Type 0
  Untouched gs = (r : FilePath) → lookup (home ++ r) gs ≡ lookup (home ++ r) fs

  abbrev WithCopy : Files → Type 0
  WithCopy gs = Untouched gs × (is_dir_at copy gs ≡ true)

  abbrev AtHomeNow : Files → Type 0
  AtHomeNow gs = is_dir_at home gs ≡ true

  Untouched-SameOn : (gs hs : Files) → Untouched gs → SameOn AtHome gs hs → Untouched hs
  Untouched-SameOn gs hs k s r = s.at (home ++ r) (r, refl) ∙ k r

  Untouched-create :
      (p : FilePath) (gs : Files)
      → ((r : FilePath) → strip (home ++ r) p ≡ none)
      → Untouched gs
      → Untouched (create_below [] p gs).1
  Untouched-create p gs h k r = create_below_outside (home ++ r) [] p gs (h r) ∙ k r

  create-Triple :
      Triple
        (λ w. Untouched w.files)
        (do_io (create_dir_all copy_path))
        (λ _ w. WithCopy w.files)
        (λ w. Untouched w.files)
  unfolding create_dir_all
  create-Triple = rw at_copy (
      Triple-files Untouched WithCopy Untouched (create_below [] copy)
        (λ n gs. (create_below [] (take n copy) gs).1)
        (λ gs k e. (
          Untouched-create copy gs copy_off k,
          create_below-there base (codes "temporary") (digest ∷ []) gs e,
        ))
        (λ gs x k e. Untouched-create copy gs copy_off k)
        (λ n gs k.
          Untouched-create (take n copy) gs (λ r. strip-take (home ++ r) copy n (copy_off r)) k))

  module _ (format : LayerFormat) where
    abbrev Checked : Result StorageError (Unit {0}) → Type 0
    Checked r = (u : Unit {0}) → r ≡ ok u → IsVerified hash body digest

    extract-Triple :
        Triple
          (λ w. WithCopy w.files)
          (caught (extract_layer hash archives body digest format copy_path))
          (λ r w. WithCopy w.files × Checked r)
          (λ w. Untouched w.files)
    extract-Triple =
        let framing =
          Framing-extract_layer {Q = AtHome} {t = copy} top top_clear hash archives confined body
            digest format copy_path digest
            (at_copy ∙ sym (append_assoc base (codes "temporary" ∷ []) (digest ∷ []))) at_copy in
        record {
          at = λ w k.
              let changed = framing.framed w in
              (
                (Untouched-SameOn w.files _ k.0 changed.same, changed.directory k.1),
                λ u e. framing.result w u e,
              );
        }

    parent-Triple :
        Triple
          (λ w. WithCopy w.files)
          (ensure_parent_dir home_path)
          (λ _ w. WithCopy w.files)
          (λ w. Untouched w.files)
    unfolding ensure_parent_dir create_dir_all ◌==◌
    parent-Triple =
        rw (home_parent, ensure_parent_dir, at_layers)
          (Triple-files WithCopy WithCopy Untouched (create_below [] layers)
            (λ n gs. (create_below [] (take n layers) gs).1)
            (λ gs k e. (
              Untouched-create layers gs layers_off k.0,
              is_dir_at-Unharmed copy gs _ (create_below-Unharmed copy [] layers gs) k.1,
            ))
            (λ gs x k e. Untouched-create layers gs layers_off k.0)
            (λ n gs k.
              Untouched-create (take n layers) gs
                (λ r. strip-take (home ++ r) layers n (layers_off r)) k.0))

    rename-Triple :
        Triple
          (λ w. WithCopy w.files)
          (do_io (rename copy_path home_path))
          (λ _ w. AtHomeNow w.files)
          (λ w. Untouched w.files)
    unfolding rename
    rename-Triple =
        rw (at_copy, at_home)
          (Triple-files WithCopy AtHomeNow Untouched (rename_at copy home) (λ n gs. gs)
            (λ gs k e.
              is_dir_at_moved home copy gs _ (lookup-rename_at copy home gs copy_apart e) ∙ k.1)
            (λ gs x k e r.
              ap (lookup (home ++ r)) (rename_at_failed copy home gs (λ ok. cc)) ∙ k.0 r)
            (λ n gs k. k.0))

    publish-Triple :
        (r : Result StorageError (Unit {0}))
        → Triple
            (λ w. WithCopy w.files × Checked r)
            (publish_extracted copy_path home_path r)
            (λ _ w. AtHomeNow w.files × IsVerified hash body digest)
            (λ w. Untouched w.files)
    unfolding publish_extracted publish_directory
    publish-Triple (ok u) = record {
      at = λ w k.
          with_checked (k.1 u refl) _
            ((Triple-bind _ _ parent-Triple (λ _. rename-Triple)).at w k.0);
    }
      where
        with_checked :
            IsVerified hash body digest
            → (o : Result StorageError (Unit {0}) × World)
            → Post (λ _ w. AtHomeNow w.files) (λ w. Untouched w.files) o
            → Post
                (λ _ w. AtHomeNow w.files × IsVerified hash body digest)
                (λ w. Untouched w.files)
                o
        with_checked v (ok a, w) h = (h, v)
        with_checked v (err e, w) h = h
    publish-Triple (err e) = record {
      at = λ w k.
          Untouched-SameOn w.files _ k.0.0
            ((Leaving-remove_dir_all_writable copy_path copy_clear).framed w);
    }

    after_name :
        Triple
          (λ w. Untouched w.files)
          (do
            do_io (create_dir_all copy_path)
            extracted ← caught (extract_layer hash archives body digest format copy_path)
            publish_extracted copy_path home_path extracted)
          (λ _ w. AtHomeNow w.files × IsVerified hash body digest)
          (λ w. Untouched w.files)
    after_name =
        Triple-bind _ _ create-Triple
          λ _. Triple-bind _ _ extract-Triple λ extracted. publish-Triple extracted

-- Wherever the saving of a layer is cut short, after a success its directory is there and the body
-- was read whole and has the bytes of the digest; after a failure nothing at or below the layer has
-- changed. The digest is one plain name, and unpacking an archive changes nothing outside of the
-- directory that it is given.
pub write_layer_whole :
    (hash : Algorithm → Text → Text) (archives : Archives)
    → IsConfined archives
    → (root : FilePath) (digest : Text) (format : LayerFormat) (body : Body) (w : World)
    → IsPlain digest
    → LayerWhole hash
        (resolve root ++ codes "layers" ∷ digest ∷ [])
        body
        digest
        w.files
        (write_layer hash archives (storage_at root) digest format body w)
unfolding write_layer storage_at
write_layer_whole hash archives confined root digest format body w plain =
    rw (file_name-push (push root (codes "layers")) digest plain)
      ((after_name hash archives confined root digest plain body w.files format).at w (λ r. refl))
