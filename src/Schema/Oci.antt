-- ===== src/Schema/Oci.antt =====
-- pkg/api/v1alpha3/types.go: an OCI index and an OCI image manifest.
-- Times, arbitrary JSON values and package properties are kept as their JSON text.
use golang_imageindex_list.Prelude.{Bytes, List, []}
use golang_imageindex_list.Prelude.Int.{ℤ, pos}

-- `OCIManifest`
pub record OciManifest : Type 0 where
  pub media_type : Bytes
  pub digest : Bytes
  pub size : ℤ

abbrev pub zero_oci_manifest : OciManifest
zero_oci_manifest = record { media_type = []; digest = []; size = pos 0 }

-- `OCISchema`
pub record OciSchema : Type 0 where
  pub schema_version : ℤ
  pub media_type : Bytes
  pub manifests : List OciManifest
  pub config : OciManifest
  pub layers : List OciManifest

abbrev pub zero_oci_schema : OciSchema
zero_oci_schema = record {
  schema_version = pos 0;
  media_type = [];
  manifests = [];
  config = zero_oci_manifest;
  layers = [];
}
