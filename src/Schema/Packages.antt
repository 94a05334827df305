-- ===== src/Schema/Packages.antt =====
-- pkg/api/v1alpha3/types.go: the types of a catalog's blobs, and those of a copy, that nothing reads.
-- Package properties are kept as their JSON text.
use golang_imageindex_list.Prelude.{Bytes, codes, List, Option}
use golang_imageindex_list.Schema.Catalog.{ChannelEntry, RelatedImage}

-- `SchemaPackage`
abbrev schema_package : Bytes
schema_package = codes "olm.package"

-- `SchemaChannel`
abbrev schema_channel : Bytes
schema_channel = codes "olm.channel"

-- `SchemaBundle`
abbrev schema_bundle : Bytes
schema_bundle = codes "olm.bundle"

-- `Icon`. The encoder writes its bytes in base 64.
pub record Icon : Type 0 where
  pub contents : Bytes
  pub media_type : Bytes

-- `Package`
pub record Package : Type 0 where
  pub schema : Bytes
  pub name : Bytes
  pub default_channel : Bytes
  pub icon : Option Icon
  pub description : Bytes
  pub properties : List Bytes

-- `Channel`
pub record Channel : Type 0 where
  pub schema : Bytes
  pub name : Bytes
  pub package_name : Bytes
  pub entries : List ChannelEntry
  pub properties : List Bytes

-- `Bundle`
pub record Bundle : Type 0 where
  pub schema : Bytes
  pub name : Bytes
  pub package_name : Bytes
  pub image : Bytes
  pub properties : List Bytes
  pub related_images : List RelatedImage
  pub csv_json : Bytes
  pub objects : List Bytes

-- `ISCPackage`
pub record IscPackage : Type 0 where
  pub channel : Bytes
  pub min_version : Bytes
  pub max_version : Bytes

-- `ImageRefSchema`
pub record ImageRefSchema : Type 0 where
  pub repository : Bytes
  pub namespace : Bytes
  pub component : Bytes

-- `Options`
pub record SimpleOptions : Type 0 where
  pub dir : Bytes
  pub action : Bytes
  pub reference : Bytes
  pub other : Bytes

-- `CopyImagesSchema`
pub record CopyImagesSchema : Type 0 where
  pub source : Bytes
  pub destination : Bytes
