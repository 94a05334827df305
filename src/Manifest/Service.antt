-- ===== src/Manifest/Service.antt =====
-- pkg/manifest/manifest.go: `New`, the implementation of the interface.
use golang_imageindex_list.Os.{Os}
use golang_imageindex_list.Manifest.{Manifest}
use golang_imageindex_list.Manifest.Formats.{Formats}
use golang_imageindex_list.Manifest.Documents
use golang_imageindex_list.Manifest.Layers
use golang_imageindex_list.Manifest.Catalogs

abbrev pub service : {O : Os} → Formats → Manifest O
service formats = record {
  get_image_index = Documents.get_image_index formats;
  get_image_manifest = Documents.get_image_manifest formats;
  get_operator_config = Documents.get_operator_config formats;
  extract_layers_oci = Layers.extract_layers_oci formats;
  get_release_schema = Documents.get_release_schema formats;
  list_catalogs = Catalogs.list_catalogs formats;
}
