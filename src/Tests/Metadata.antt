-- ===== src/Tests/Metadata.antt =====
-- The theorems about the JSON form of metadata, at concrete values.
use golang_imageindex_list.Prelude.{Bytes, codes, ◌++◌, none, ◌≡◌, refl}
use golang_imageindex_list.Exec.{Result, ok}
use golang_imageindex_list.V1alpha2.GroupVersion.{TypeMeta, Meta, SchemaGroupVersion}
use golang_imageindex_list.V1alpha2.Metadata.{
  Metadata, MetadataSpec, new_metadata, encoding_failure, marshal_json, marshal_index,
}
use golang_imageindex_list.V1alpha2.Metadata.Laws.{
  marshal_json-new_metadata, marshal_index_diverges,
}

marshal_index_diverges_example : marshal_index (λ r. r) 9 (codes "[]") ≡ none
marshal_index_diverges_example = marshal_index_diverges (λ r. r) (codes "[]") 9

abbrev meta : Meta
meta = record {
  Gvk = SchemaGroupVersion × Bytes;
  group_version_string = λ gv. gv.group ++ codes "/" ++ gv.version;
  with_kind = λ gv kind. (gv, kind);
  gvk_string = λ gvk. gvk.0.group ++ codes "/" ++ gvk.0.version ++ codes ", Kind=" ++ gvk.1;
  set_group_version_kind = λ gvk before. record {
    kind = gvk.1;
    api_version = gvk.0.group ++ codes "/" ++ gvk.0.version;
  };
}

abbrev encode : TypeMeta → MetadataSpec → Result Bytes
encode type spec = ok (type.kind ++ codes " " ++ type.api_version)

-- Metadata of an older version.
abbrev old : Metadata
old = record (new_metadata meta) {
  type_meta = record {
    kind = codes "Metadata";
    api_version = codes "mirror.openshift.io/v1alpha1";
  };
}

abbrev typed : Metadata
typed = record old { type_meta = (new_metadata meta).type_meta }

marshal_json-new_metadata_example :
    (marshal_json meta encode old
      ≡ (encoding_failure meta (encode typed.type_meta old.spec), typed))
    × (marshal_json meta encode typed ≡ marshal_json meta encode old)
marshal_json-new_metadata_example =
    marshal_json-new_metadata meta (record { set_both = λ gv kind before. refl }) encode old
