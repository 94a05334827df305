-- ===== src/Options/Format.antt =====
-- pkg/mirror/options.go: `ParseManifestFormat`.
use golang_imageindex_list.Prelude.{Bytes, codes, ◌∷◌, [], bytes_eq, if◌then◌else◌}
use golang_imageindex_list.Exec.{Result, ok, err}
use golang_imageindex_list.Fmt.{sprintf}

-- The MIME types are constants of the image libraries.
pub record MediaTypes : Type 0 where
  pub image_manifest : Bytes
  pub docker_v2s1_signed : Bytes
  pub docker_v2s2 : Bytes

-- `ParseManifestFormat`
unfoldable pub parse_manifest_format : MediaTypes → Bytes → Result Bytes
parse_manifest_format types format =
    if bytes_eq format (codes "oci")
    then ok types.image_manifest
    else if bytes_eq format (codes "v2s1")
    then ok types.docker_v2s1_signed
    else if bytes_eq format (codes "v2s2")
    then ok types.docker_v2s2
    else err (
        sprintf
          (codes "unknown format %q. Choose one of the supported formats: 'oci', 'v2s1', or 'v2s2'")
          (format ∷ []))
