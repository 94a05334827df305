-- ===== src/Manifest/Documents.antt =====
-- pkg/manifest/manifest.go: `GetImageIndex`, `GetImageManifest`, `GetOperatorConfig` and
-- `GetReleaseSchema`.
pub mod Laws
use golang_imageindex_list.Prelude.{Bytes, codes, List, [], ◌∷◌, ◌++◌, Option}
use golang_imageindex_list.Exec.{Result, ok, err, Exec, pure, lift, ◌>>=◌}
use golang_imageindex_list.Os.{Os}
use golang_imageindex_list.World.{World, os_read}
use golang_imageindex_list.Schema.Oci.{OciSchema}
use golang_imageindex_list.Schema.OperatorConfig.{OperatorConfigSchema}
use golang_imageindex_list.Schema.Release.{Tags}
use golang_imageindex_list.Schema.Catalog.{RelatedImage}
use golang_imageindex_list.Manifest.Formats.{Formats}

abbrev pub index_file : Bytes
index_file = codes "index.json"

-- The bytes of a file of which the error is dropped.
unfoldable pub or_nothing : Result Bytes → Bytes
or_nothing (ok text) = text
or_nothing (err e) = []

-- The loop of `GetReleaseSchema`, which appends an image for each tag.
unfoldable pub collect_images : List Tags → List RelatedImage → List RelatedImage
collect_images [] all_images = all_images
collect_images (item ∷ tags) all_images =
    collect_images tags (all_images ++ record { name = item.name; image = item.from.name } ∷ [])

module _ {O : Os} (formats : Formats) where
  -- `GetImageIndex`
  unfoldable pub get_image_index : Bytes → Exec (World O) (Option OciSchema)
  get_image_index dir = do
    indx ← os_read {O = O} (λ s. O.read_file s (dir ++ codes "/" ++ index_file))
    lift (formats.unmarshal_oci indx)

  -- `GetImageManifest`
  unfoldable pub get_image_manifest : Bytes → Exec (World O) (Option OciSchema)
  get_image_manifest file = do
    manifest ← os_read {O = O} (λ s. O.read_file s file)
    lift (formats.unmarshal_oci manifest)

  -- `GetOperatorConfig`
  unfoldable pub get_operator_config : Bytes → Exec (World O) (Option OperatorConfigSchema)
  get_operator_config file = do
    manifest ← os_read {O = O} (λ s. O.read_file s file)
    lift (formats.unmarshal_operator_config manifest)

  -- `GetReleaseSchema`, which does not look at the error of the read.
  unfoldable pub get_release_schema : Bytes → Exec (World O) (List RelatedImage)
  get_release_schema file_path w =
      (do
        release ← lift (formats.unmarshal_release (or_nothing (O.read_file w.os file_path)))
        pure (collect_images release.spec.tags []))
        w
