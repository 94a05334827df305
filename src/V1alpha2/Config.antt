-- ===== src/V1alpha2/Config.antt =====
-- pkg/api/v1alpha2/types_config.go: the configuration of an image set.
use golang_imageindex_list.Prelude.{Bytes, codes, List, Bool, not}
use golang_imageindex_list.Prelude.Int.{ℤ}
use golang_imageindex_list.V1alpha2.GroupVersion.{TypeMeta}
use golang_imageindex_list.V1alpha2.Include.{IncludeConfig}
use golang_imageindex_list.V1alpha2.PlatformTypes.{PlatformType}
use golang_imageindex_list.V1alpha2.Storage.{StorageConfig}

-- `Image`
pub record Image : Type 0 where
  pub name : Bytes

-- `SampleImages`
pub record SampleImages : Type 0 where
  pub image : Image

-- `Chart`
pub record Chart : Type 0 where
  pub name : Bytes
  pub version : Bytes
  pub path : Bytes
  pub image_paths : List Bytes

-- `Repository`
pub record Repository : Type 0 where
  pub url : Bytes
  pub name : Bytes
  pub charts : List Chart

-- `Helm`
pub record Helm : Type 0 where
  pub repositories : List Repository
  pub local : List Chart

-- `Operator`
pub record Operator : Type 0 where
  pub include : IncludeConfig
  pub catalog : Bytes
  pub target_name : Bytes
  pub target_tag : Bytes
  pub full : Bool
  pub skip_dependencies : Bool
  pub original_ref : Bytes

-- `ReleaseChannel`
pub record ReleaseChannel : Type 0 where
  pub name : Bytes
  pub type : PlatformType
  pub min_version : Bytes
  pub max_version : Bytes
  pub shortest_path : Bool
  pub full : Bool

-- `IsHeadsOnly` of a channel.
unfoldable pub is_heads_only : ReleaseChannel → Bool
is_heads_only r = not r.full

-- `Platform`
pub record Platform : Type 0 where
  pub graph : Bool
  pub channels : List ReleaseChannel
  pub architectures : List Bytes

-- `Mirror`
pub record Mirror : Type 0 where
  pub platform : Platform
  pub operators : List Operator
  pub additional_images : List Image
  pub helm : Helm
  pub blocked_images : List Image
  pub samples : List SampleImages

-- `ImageSetConfigurationSpec`
pub record ImageSetConfigurationSpec : Type 0 where
  pub mirror : Mirror
  pub archive_size : ℤ
  pub storage_config : StorageConfig

-- `ImageSetConfigurationKind`
abbrev pub image_set_configuration_kind : Bytes
image_set_configuration_kind = codes "ImageSetConfiguration"

-- `ImageSetConfiguration`
pub record ImageSetConfiguration : Type 0 where
  pub type_meta : TypeMeta
  pub spec : ImageSetConfigurationSpec
