-- ===== src/V1alpha2/Metadata/Laws.antt =====
-- What the JSON form of metadata and of an index depends on.
use golang_imageindex_list.Prelude.{ℕ, zero, suc, Bytes, ◌≡◌, refl, none}
use golang_imageindex_list.Exec.{Result}
use golang_imageindex_list.V1alpha2.GroupVersion.{TypeMeta, Meta, SetsBoth, group_version}
use golang_imageindex_list.V1alpha2.Metadata.{
  Metadata, MetadataSpec, metadata_kind, new_metadata, encoding_failure, marshal_json, InlinedIndex,
  marshal_index,
}

-- `InlinedIndex.MarshalJSON` never returns: `json.Marshal` calls it again, so at whatever depth the
-- calls are cut off, there is no result yet.
pub marshal_index_diverges :
    (finish : Result Bytes → Result Bytes) (index : InlinedIndex) (depth : ℕ)
    → marshal_index finish depth index ≡ none
unfolding marshal_index
marshal_index_diverges finish index zero = refl
marshal_index_diverges finish index (suc depth) = rw (marshal_index_diverges finish index depth)

module _ (meta : Meta) (sets : SetsBoth meta)
    (encode : TypeMeta → MetadataSpec → Result Bytes) where
  -- Whatever type a metadata value names, it is written with the type of a new one, and is left with
  -- that type and its own specification; so to write it again gives the same text.
  pub marshal_json-new_metadata :
      (m : Metadata)
      → let typed = record m { type_meta = (new_metadata meta).type_meta } in
        (marshal_json meta encode m
          ≡ (encoding_failure meta (encode typed.type_meta m.spec), typed))
        × (marshal_json meta encode typed ≡ marshal_json meta encode m)
  unfolding marshal_json new_metadata
  marshal_json-new_metadata m = (
    rw (sets.set_both group_version metadata_kind m.type_meta),
    rw (
      sets.set_both group_version metadata_kind m.type_meta,
      sets.set_both group_version metadata_kind (new_metadata meta).type_meta,
    ),
  )
