-- ===== src/Schema/Release.antt =====
-- pkg/api/v1alpha3/types.go: the release payload: `image-references`.
-- Times, arbitrary JSON values and package properties are kept as their JSON text.
use golang_imageindex_list.Prelude.{Bytes, List, [], Bool, false}

-- `MetadataAnnotations`
pub record MetadataAnnotations : Type 0 where
  pub release_openshift_io_from_image_stream : Bytes
  pub release_openshift_io_from_release : Bytes

abbrev pub zero_metadata_annotations : MetadataAnnotations
zero_metadata_annotations = record {
  release_openshift_io_from_image_stream = [];
  release_openshift_io_from_release = [];
}

-- `Metadata`
pub record Metadata : Type 0 where
  pub name : Bytes
  pub creation_timestamp : Bytes
  pub annotations : MetadataAnnotations

abbrev pub zero_metadata : Metadata
zero_metadata = record {
  name = [];
  creation_timestamp = [];
  annotations = zero_metadata_annotations;
}

-- `LookupPolicy`
pub record LookupPolicy : Type 0 where
  pub local : Bool

abbrev pub zero_lookup_policy : LookupPolicy
zero_lookup_policy = record { local = false }

-- `Annotations`
pub record Annotations : Type 0 where
  pub io_openshift_build_commit_id : Bytes
  pub io_openshift_build_commit_ref : Bytes
  pub io_openshift_build_source_location : Bytes
  pub io_openshift_build_version_display_names : Bytes
  pub io_openshift_build_versions : Bytes

abbrev pub zero_annotations : Annotations
zero_annotations = record {
  io_openshift_build_commit_id = [];
  io_openshift_build_commit_ref = [];
  io_openshift_build_source_location = [];
  io_openshift_build_version_display_names = [];
  io_openshift_build_versions = [];
}

-- `From`
pub record From : Type 0 where
  pub kind : Bytes
  pub name : Bytes

abbrev pub zero_from : From
zero_from = record { kind = []; name = [] }

-- `ReferencePolicy`
pub record ReferencePolicy : Type 0 where
  pub type : Bytes

abbrev pub zero_reference_policy : ReferencePolicy
zero_reference_policy = record { type = [] }

-- `Tags`. `ImportPolicy` has no field and is left out.
pub record Tags : Type 0 where
  pub name : Bytes
  pub annotations : Annotations
  pub from : From
  pub generation : Bytes
  pub reference_policy : ReferencePolicy

abbrev pub zero_tags : Tags
zero_tags = record {
  name = [];
  annotations = zero_annotations;
  from = zero_from;
  generation = [];
  reference_policy = zero_reference_policy;
}

-- `Spec`
pub record Spec : Type 0 where
  pub lookup_policy : LookupPolicy
  pub tags : List Tags

abbrev pub zero_spec : Spec
zero_spec = record { lookup_policy = zero_lookup_policy; tags = [] }

-- `Status`
pub record Status : Type 0 where
  pub docker_image_repository : Bytes

abbrev pub zero_status : Status
zero_status = record { docker_image_repository = [] }

-- `ReleaseSchema`
pub record ReleaseSchema : Type 0 where
  pub kind : Bytes
  pub api_version : Bytes
  pub metadata : Metadata
  pub spec : Spec
  pub status : Status

abbrev pub zero_release_schema : ReleaseSchema
zero_release_schema = record {
  kind = [];
  api_version = [];
  metadata = zero_metadata;
  spec = zero_spec;
  status = zero_status;
}
