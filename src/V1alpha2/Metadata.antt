-- ===== src/V1alpha2/Metadata.antt =====
-- pkg/api/v1alpha2/type_metadata.go: what is kept of earlier runs.
pub mod Laws
use mathlib.Core.Option.{map as map_option}
use golang_imageindex_list.Prelude.{
  ℕ, zero, suc, Bytes, codes, List, [], ◌∷◌, ◌++◌, Bool, false, Option, none, some, length,
}
use golang_imageindex_list.Prelude.Int.{ℤ, pos}
use golang_imageindex_list.Exec.{Result, ok, err}
use golang_imageindex_list.Fmt.{sprintf}
use golang_imageindex_list.V1alpha2.GroupVersion.{TypeMeta, Meta, group_version}
use golang_imageindex_list.V1alpha2.Associations.{Association}
use golang_imageindex_list.V1alpha2.Config.{Mirror}
use golang_imageindex_list.V1alpha2.Include.{IncludeConfig}

-- `OperatorMetadata`
pub record OperatorMetadata : Type 0 where
  pub catalog : Bytes
  pub image_pin : Bytes
  pub include : IncludeConfig

-- `PlatformMetadata`
pub record PlatformMetadata : Type 0 where
  pub release_channel : Bytes
  pub min_version : Bytes

-- `PastMirror`
pub record PastMirror : Type 0 where
  pub timestamp : ℤ
  pub sequence : ℤ
  pub mirror : Mirror
  pub operators : List OperatorMetadata
  pub platforms : List PlatformMetadata
  pub associations : List Association

-- `MetadataSpec`. The identifier is its sixteen bytes.
pub record MetadataSpec : Type 0 where
  pub uid : Bytes
  pub single_use : Bool
  pub past_mirror : PastMirror
  pub past_associations : List Association

-- `Metadata`
pub record Metadata : Type 0 where
  pub type_meta : TypeMeta
  pub spec : MetadataSpec

-- `MetadataKind`
abbrev pub metadata_kind : Bytes
metadata_kind = codes "Metadata"

abbrev pub zero_mirror : Mirror
zero_mirror = record {
  platform = record { graph = false; channels = []; architectures = [] };
  operators = [];
  additional_images = [];
  helm = record { repositories = []; local = [] };
  blocked_images = [];
  samples = [];
}

abbrev pub zero_past_mirror : PastMirror
zero_past_mirror = record {
  timestamp = pos 0;
  sequence = pos 0;
  mirror = zero_mirror;
  operators = [];
  platforms = [];
  associations = [];
}

-- The zero value of `uuid.UUID`.
abbrev pub zero_uid : Bytes
zero_uid = 0 ∷ 0 ∷ 0 ∷ 0 ∷ 0 ∷ 0 ∷ 0 ∷ 0 ∷ 0 ∷ 0 ∷ 0 ∷ 0 ∷ 0 ∷ 0 ∷ 0 ∷ 0 ∷ []

module _ (meta : Meta) where
  -- `NewMetadata`
  unfoldable pub new_metadata : Metadata
  new_metadata = record {
    type_meta = record {
      kind = metadata_kind;
      api_version = meta.group_version_string group_version;
    };
    spec = record {
      uid = zero_uid;
      single_use = false;
      past_mirror = zero_past_mirror;
      past_associations = [];
    };
  }

  abbrev pub encoding_failure : Result Bytes → Result Bytes
  encoding_failure (ok text) = ok text
  encoding_failure (err e) =
      let gvk = meta.with_kind group_version metadata_kind in
      err (sprintf (codes "encode %s: %v") (meta.gvk_string gvk ∷ e ∷ []))

  -- `MarshalJSON`, given what `json.Encoder` writes of the anonymous `struct`: its text, and the
  -- value that the receiver has afterwards.
  unfoldable pub marshal_json :
      (TypeMeta → MetadataSpec → Result Bytes) → Metadata → Result Bytes × Metadata
  marshal_json encode m =
      let gvk = meta.with_kind group_version metadata_kind in
      let typed = record m { type_meta = meta.set_group_version_kind gvk m.type_meta } in
      (encoding_failure (encode typed.type_meta typed.spec), typed)

-- `InlinedIndex`: the JSON text of an index.
abbrev pub InlinedIndex : Type 0
InlinedIndex = Bytes

abbrev pub written : Bytes → InlinedIndex → Result Bytes → Result ℕ × InlinedIndex
written given index (ok msg) = (ok (length given), msg)
written given index (err e) = (err e, index)

-- `Write`, given `UnmarshalJSON` of an empty `json.RawMessage`: its results, and the value that the
-- receiver has afterwards.
unfoldable pub write : (Bytes → Result Bytes) → InlinedIndex → Bytes → Result ℕ × InlinedIndex
write raw_unmarshal index given = written given index (raw_unmarshal given)

-- `InlinedIndex.MarshalJSON`, given what `json.Marshal` makes of the results of a value's own
-- `MarshalJSON`, which it calls. The fuel bounds the depth of the calls.
unfoldable pub marshal_index :
    (Result Bytes → Result Bytes) → ℕ → InlinedIndex → Option (Result Bytes)
marshal_index finish zero index = none
marshal_index finish (suc fuel) index = map_option finish (marshal_index finish fuel index)
