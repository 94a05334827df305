-- ===== src/Collector/Fetch.antt =====
-- pkg/index/list-images.go: the part of `Collect` that runs when the artifact is not there yet:
-- copy the image, follow its digests and extract its layers. The options are those at the start;
-- no step writes them, but for `RemoveSignatures`, which `Collect` does not read.
use golang_imageindex_list.Prelude.{Bytes, codes, List, [], ◌∷◌, ◌++◌, Option, not, if◌then◌else◌}
use golang_imageindex_list.Exec.{
  Result, ok, err, Exec, pure, fail, deref, try, wrapped, ◌>>=◌, ◌>>◌,
}
use golang_imageindex_list.Fmt.{sprintf}
use golang_imageindex_list.Strings.{contains}
use golang_imageindex_list.Os.{Os}
use golang_imageindex_list.World.{World, os_call}
use golang_imageindex_list.Log.{log_info, log_debug, log_error}
use golang_imageindex_list.Options.{GlobalOptions}
use golang_imageindex_list.Schema.Oci.{OciManifest, OciSchema}
use golang_imageindex_list.Manifest.{Manifest}
use golang_imageindex_list.Manifest.Layers.{digest_part}
use golang_imageindex_list.Mirror.{Mirror}
use golang_imageindex_list.Collector.Paths.{
  docker_protocol, oci_protocol_trimmed, release_manifest, operator_cache_dir, operator_copy_dir,
  operator_blobs_dir, operator_blob, release_copy_dir, release_blob, release_blobs_dir,
  release_to_dir,
}

-- `errMsg`
abbrev pub err_msg : Bytes
err_msg = codes "[Collect] %v "

abbrev pub collect_error : Bytes → Bytes
collect_error e = sprintf err_msg (e ∷ [])

module _ {O : Os} (mirror : Mirror O) (g : GlobalOptions) where
  -- Makes the directory and copies the image into it.
  unfoldable pub copy_image_to : Bytes → Exec (World O) (Unit {0})
  copy_image_to copy_dir = do
    os_call {O = O} (λ s. O.mkdir_all s copy_dir)
    log_info (codes "copying %s image ") (g.reference ∷ [])
    mirror.run (docker_protocol ++ g.reference) (oci_protocol_trimmed ++ copy_dir) (codes "copy")

module _ {O : Os} (g : GlobalOptions) where
  -- The checks of an operator's index: its first manifest, with a digest that names sha256.
  unfoldable pub first_operator_manifest : List OciManifest → Exec (World O) OciManifest
  first_operator_manifest [] =
      fail (sprintf (codes "[Inspect] no manifests found for %s ") (g.reference ∷ []))
  first_operator_manifest (m ∷ ms) =
      if not (contains m.digest (codes "sha256"))
      then fail
          (sprintf (codes "[Inspect] the digest seems to incorrect for %s ") (g.reference ∷ []))
      else pure m

module _ {O : Os} where
  -- The check of a release's index. Its digest is not looked at.
  unfoldable pub first_release_manifest : List OciManifest → Exec (World O) OciManifest
  first_release_manifest [] = fail (collect_error (codes "image index not found "))
  first_release_manifest (m ∷ ms) = pure m

  -- The index of a release. Its error is logged and returned.
  unfoldable pub logged_index : Result (Option OciSchema) → Exec (World O) (Option OciSchema)
  logged_index (ok index) = pure index
  logged_index (err e) = do log_error (codes "[Collector] %v ") (e ∷ []); fail (collect_error e)

module _ {O : Os} (manifest : Manifest O) (mirror : Mirror O) (g : GlobalOptions) where
  -- The branch of an operator.
  unfoldable pub fetch_operator : Exec (World O) (Unit {0})
  fetch_operator = do
    copy_image_to mirror g (operator_copy_dir g)
    index ← manifest.get_image_index (operator_copy_dir g)
    index_schema ← deref index
    first ← first_operator_manifest g index_schema.manifests
    part ← deref (digest_part first.digest)
    log_info (codes "manifest %v") (part ∷ [])
    oci ← manifest.get_image_manifest (operator_blob g part)
    schema ← deref oci
    config_part ← deref (digest_part schema.config.digest)
    config ← manifest.get_operator_config (operator_blob g config_part)
    ocs ← deref config
    let label = ocs.config.labels.operators_operatorframework_io_index_configs_v1
    log_info (codes "label %s") (label ∷ [])
    manifest.extract_layers_oci (operator_blobs_dir g) (operator_cache_dir g) label oci

  -- The branch of a release.
  unfoldable pub fetch_release : Exec (World O) (Unit {0})
  fetch_release = do
    copy_image_to mirror g (release_copy_dir g)
    found ← try (manifest.get_image_index (release_copy_dir g))
    index ← logged_index found
    index_schema ← deref index
    first ← first_release_manifest index_schema.manifests
    part ← deref (digest_part first.digest)
    log_debug (codes "image index %v") (part ∷ [])
    oci ← wrapped collect_error (manifest.get_image_manifest (release_blob g part))
    schema ← deref oci
    log_debug (codes "manifest %v ") (schema.config.digest ∷ [])
    manifest.extract_layers_oci (release_blobs_dir g) (release_to_dir g) release_manifest oci
