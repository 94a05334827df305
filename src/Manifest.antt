-- ===== src/Manifest.antt =====
-- pkg/manifest/manifest.go: the interface of the component. A pointer to a document is an `Option`:
-- decoding `null` leaves it nil.
pub mod Formats
pub mod Documents
pub mod Untar
pub mod Layers
pub mod Catalogs
pub mod Unread
pub mod Service
use golang_imageindex_list.Prelude.{Bytes, List, Option}
use golang_imageindex_list.Exec.{Exec}
use golang_imageindex_list.Os.{Os}
use golang_imageindex_list.World.{World}
use golang_imageindex_list.Schema.Oci.{OciSchema}
use golang_imageindex_list.Schema.OperatorConfig.{OperatorConfigSchema}
use golang_imageindex_list.Schema.Catalog.{RelatedImage}

-- `ManifestInterface`
pub record Manifest (O : Os) : Type 0 where
  pub get_image_index : Bytes → Exec (World O) (Option OciSchema)
  pub get_image_manifest : Bytes → Exec (World O) (Option OciSchema)
  pub get_operator_config : Bytes → Exec (World O) (Option OperatorConfigSchema)
  pub extract_layers_oci : Bytes → Bytes → Bytes → Option OciSchema → Exec (World O) (Unit {0})
  pub get_release_schema : Bytes → Exec (World O) (List RelatedImage)
  pub list_catalogs : Bytes → Bytes → Exec (World O) (Unit {0})
