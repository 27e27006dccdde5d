-- ===== src/Prune/Used.antt =====
-- What is in use, as the storage reads it when nothing is cut short.
use pakstak.Base.{Text, Result, List, [], ◌∷◌, ◌++◌}
use pakstak.Manifest.{Json}
use pakstak.Storage.Action.{StorageError}
use pakstak.Storage.Layout.{Storage}
use pakstak.Prune.{
  HashSets, layer_digests, used_manifest, read_used_manifests, add_used_layers, read_used_layers,
}
use pakstak.Storage.Reads.{
  Reads, Reads-pure, Reads-from_result, Reads-bind, Reads-collect, Reads-read_containers,
  Reads-read_container_manifest_digest, Reads-read_manifest,
}

module _ (s : Storage) where
  pub Reads-used_manifest : (entry : Result StorageError Text) → Reads (used_manifest s entry)
  unfolding used_manifest
  Reads-used_manifest entry =
      Reads-bind _ _ (Reads-from_result entry) (Reads-read_container_manifest_digest s)

  pub Reads-read_used_manifests : Reads (read_used_manifests s)
  unfolding read_used_manifests
  Reads-read_used_manifests =
      Reads-bind _ _ (Reads-read_containers s)
        (λ entries. Reads-collect _ Reads-used_manifest entries)

module _ (json : Json) (s : Storage) where
  Reads-add_used_layers :
      (layers digests : List Text) → Reads (add_used_layers json s layers digests)
  unfolding add_used_layers
  Reads-add_used_layers layers [] = Reads-pure layers
  Reads-add_used_layers layers (d ∷ ds) =
      Reads-bind _ _ (Reads-read_manifest json s d)
        λ manifest. Reads-add_used_layers (layers ++ layer_digests manifest) ds

  pub Reads-read_used_layers :
      (sets : HashSets) (used : List Text) → Reads (read_used_layers json s sets used)
  unfolding read_used_layers
  Reads-read_used_layers sets used = Reads-add_used_layers [] (sets.iterate used)
