-- ===== src/Storage/Unpacking.antt =====
-- What an archive may change, and what the extraction of a layer leaves as it is.
use pakstak.Base.{Text, ok, map_err, true, none, [], ◌∷◌, ◌++◌, ◌≡◌, arith}
use pakstak.Digest.Verifier.{Algorithm, DigestError, DigestVerifier, new, verify}
use pakstak.Network.{Body}
use pakstak.Formats.{LayerFormat}
use pakstak.Fs.Paths.{FilePath, resolve, push}
use pakstak.Fs.Files.{Files, strip, lookup, is_dir_at}
use pakstak.Fs.World.{World, set_permissions, remove_file}
use pakstak.Fs.Attributes.{set_xattr, create_new}
use pakstak.Fs.DirectoryLaws.{
  KeepsDirs, KeepsDirs-refl, KeepsDirs-trans, set_xattr_at-KeepsDirs, set_mode_at-KeepsDirs,
  create_new_at-KeepsDirs, remove_file_at-KeepsDirs,
}
use pakstak.Storage.Action.{StorageError, Action, layer_digest}
use pakstak.Storage.Frames.{
  Any, Framing, IsPreorder, Framing-from_result, Framing-operation, Framing-bind,
}
use pakstak.Storage.Leaving.{
  SameOn, SameOn-IsPreorder, IsClear, Leaving, Leaving-set_xattr, Leaving-create_new,
  Leaving-set_permissions, Leaving-remove_file,
}
use pakstak.Storage.Layers.{Archives, read_rest, unpack_layer, extract_layer, taken_from}
use pakstak.Storage.Extraction.{IsVerified, extraction-IsVerified}
use pakstak.Storage.Whiteouts.{yes_value}
use pakstak.Storage.WhiteoutFrames.{
  IsIn, IsUnder, IsUnder-push, IsIn-push, IsIn-Touches, Allows,
  Framing-convert_oci_whiteouts_to_overlayfs,
}

-- Unpacking changes nothing outside of its directory, which stays one.
pub record IsConfined (archives : Archives) : Type 0 where
  pub outside :
      (format : LayerFormat) (body : Body) (dir : FilePath) (w : World) (q : FilePath)
      → strip (resolve dir) q ≡ none
      → lookup q (archives.unpack format body dir w).1.files ≡ lookup q w.files
  pub directory :
      (format : LayerFormat) (body : Body) (dir : FilePath) (w : World)
      → is_dir_at (resolve dir) w.files ≡ true
      → is_dir_at (resolve dir) (archives.unpack format body dir w).1.files ≡ true

module _ (Q : FilePath → Type 0) (t : FilePath) where
  -- The paths of `Q` hold what they held, and the directory `t` is one still.
  pub record Extracts (fs fs' : Files) : Type 0 where
    pub same : SameOn Q fs fs'
    pub directory : is_dir_at t fs ≡ true → is_dir_at t fs' ≡ true

KeepsDirs-IsPreorder : IsPreorder KeepsDirs
KeepsDirs-IsPreorder = record { reflexive = KeepsDirs-refl; transitive = KeepsDirs-trans }

IsIn-clear :
    {Q : FilePath → Type 0} (top : FilePath)
    → ((r : FilePath) → IsClear Q (top ++ r))
    → (p : FilePath) → IsIn top p
    → IsClear Q (resolve p)
IsIn-clear top clear p (r, e) = rw e (clear r)

module _ {Q : FilePath → Type 0} {t : FilePath} where
  pub Extracts-IsPreorder : IsPreorder (Extracts Q t)
  Extracts-IsPreorder = record {
    reflexive = λ fs. record { same = SameOn-IsPreorder.reflexive fs; directory = λ h. h };
    transitive = λ fs gs hs h k. record {
      same = SameOn-IsPreorder.transitive fs gs hs h.same k.same;
      directory = λ x. k.directory (h.directory x);
    };
  }

  both :
      {m : Action (Unit {0})}
      → Leaving Q Any m
      → Framing KeepsDirs Any m
      → Framing (Extracts Q t) Any m
  both h k = record {
    framed = λ w. record { same = h.framed w; directory = (k.framed w).at t };
    result = h.result;
  }

  module _ (top : FilePath) (clear : (r : FilePath) → IsClear Q (top ++ r)) where
    module _ (name : Text) (dir : FilePath) (under : IsUnder top name dir) where
      Extracts-Allows : Allows (Extracts Q t) dir
      unfolding set_xattr create_new set_permissions remove_file
      Extracts-Allows = record {
        set_xattr = λ p key h.
            both
              (Leaving-set_xattr p key yes_value
                (IsIn-clear top clear p (IsIn-Touches top name dir p under h)))
              (Framing-operation KeepsDirs-IsPreorder _ _
                (λ fs. set_xattr_at-KeepsDirs (resolve p) key yes_value fs)
                (λ n fs. KeepsDirs-refl fs));
        create_new = λ p h.
            both
              (Leaving-create_new p (IsIn-clear top clear p (IsIn-Touches top name dir p under h)))
              (Framing-operation KeepsDirs-IsPreorder _ _
                (λ fs. create_new_at-KeepsDirs (resolve p) fs) (λ n fs. KeepsDirs-refl fs));
        set_permissions = λ c mode h.
            both
              (Leaving-set_permissions (push dir c) mode
                (IsIn-clear top clear (push dir c) (IsIn-push top name dir c under h)))
              (Framing-operation KeepsDirs-IsPreorder _ _
                (λ fs. set_mode_at-KeepsDirs (resolve (push dir c)) mode fs)
                (λ n fs. KeepsDirs-refl fs));
        remove_file = λ c h m.
            both
              (Leaving-remove_file (push dir c)
                (IsIn-clear top clear (push dir c) (IsIn-push top name dir c under h)))
              (Framing-operation KeepsDirs-IsPreorder _ _
                (λ fs. remove_file_at-KeepsDirs (resolve (push dir c)) fs)
                (λ n fs. KeepsDirs-refl fs));
      }

    -- Extraction to an entry of `top` leaves the paths of `Q` alone; where it succeeds, the body was
    -- the one of the digest.
    pub Framing-extract_layer :
        (hash : Algorithm → Text → Text) (archives : Archives)
        → IsConfined archives
        → (body : Body) (digest : Text) (format : LayerFormat) (dir : FilePath) (name : Text)
        → resolve dir ≡ top ++ name ∷ []
        → resolve dir ≡ t
        → Framing
            (Extracts Q t)
            (λ _. IsVerified hash body digest)
            (extract_layer hash archives body digest format dir)
    unfolding extract_layer unpack_layer
    Framing-extract_layer hash archives confined body digest format dir name at at_t =
        Framing-bind Extracts-IsPreorder _ _
          (Framing-from_result Extracts-IsPreorder
            (map_err {E = DigestError} layer_digest (new body digest)) (λ v e. new_made v e))
          λ v made. Framing-bind Extracts-IsPreorder _ _ unpacks λ k _.
            Framing-bind Extracts-IsPreorder _ _
              (Framing-convert_oci_whiteouts_to_overlayfs Extracts-IsPreorder (IsUnder top name)
                (Extracts-Allows name) (IsUnder-push top name) dir ([], at))
              λ _ _.
                Framing-bind Extracts-IsPreorder _ _
                  (Framing-from_result Extracts-IsPreorder (read_rest (taken_from k v)) (λ v' e. e))
                  λ v' rest.
                    Framing-from_result Extracts-IsPreorder
                      (map_err {E = DigestError} layer_digest (verify hash v'))
                      (λ u right. extraction-IsVerified hash body digest k v v' made rest right)
      where
        new_made :
            (v : DigestVerifier Body)
            → map_err {E = DigestError} {F = StorageError} layer_digest (new body digest) ≡ ok v
            → new body digest ≡ ok v
        new_made v e = ground (arith, e)

        unpacks : Framing (Extracts Q t) Any (unpack_layer archives format body dir)
        unpacks = record {
          framed = λ w. record {
            same = record {
              at = λ q x. confined.outside format body dir w q (rw at (clear (name ∷ []) q x));
            };
            directory = rw (← at_t) (confined.directory format body dir w);
          };
          result = λ w a _. tt;
        }
