-- ===== src/Schema/Catalog.antt =====
-- pkg/api/v1alpha3/types.go: the objects of a file-based catalog.
-- Times, arbitrary JSON values and package properties are kept as their JSON text.
use golang_imageindex_list.Prelude.{Bytes, List, []}

-- `ChannelEntry`
pub record ChannelEntry : Type 0 where
  pub name : Bytes
  pub replaces : Bytes
  pub skips : List Bytes
  pub skip_range : Bytes

abbrev pub zero_channel_entry : ChannelEntry
zero_channel_entry = record { name = []; replaces = []; skips = []; skip_range = [] }

-- `RelatedImage`
pub record RelatedImage : Type 0 where
  pub name : Bytes
  pub image : Bytes

abbrev pub zero_related_image : RelatedImage
zero_related_image = record { name = []; image = [] }

-- `DeclarativeConfig`
pub record DeclarativeConfig : Type 0 where
  pub schema : Bytes
  pub name : Bytes
  pub package_name : Bytes
  pub properties : List Bytes
  pub related_images : List RelatedImage
  pub entries : List ChannelEntry
  pub default_channel : Bytes
  pub description : Bytes

abbrev pub zero_declarative_config : DeclarativeConfig
zero_declarative_config = record {
  schema = [];
  name = [];
  package_name = [];
  properties = [];
  related_images = [];
  entries = [];
  default_channel = [];
  description = [];
}
