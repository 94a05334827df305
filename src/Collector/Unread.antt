-- ===== src/Collector/Unread.antt =====
-- The options that decide nothing of `Collect`.
use golang_imageindex_list.Prelude.{
  Bytes, codes, List, [], ◌∷◌, Option, refl, Bool-cases, inl, inr, not,
}
use golang_imageindex_list.Exec.{Result, ok, err, Exec}
use golang_imageindex_list.Strings.{contains}
use golang_imageindex_list.Os.{Os}
use golang_imageindex_list.World.{World}
use golang_imageindex_list.Options.{GlobalOptions}
use golang_imageindex_list.Options.{CopyOptions}
use golang_imageindex_list.World.Unread.{
  IsBlind, IsBlind-pure, IsBlind-fail, IsBlind-deref, IsBlind-os_read, IsBlind-os_call, IsBlind-try,
  IsBlind-wrapped, IsBlind-if, IsBlind-log, IsBlind-bind, IsBlind-options, IsBlind-for_each,
}
use golang_imageindex_list.Schema.Oci.{OciManifest, OciSchema}
use golang_imageindex_list.Manifest.Formats.{Formats}
use golang_imageindex_list.Manifest.Documents.{
  get_image_index, get_image_manifest, get_operator_config,
}
use golang_imageindex_list.Manifest.Layers.{is_missing}
use golang_imageindex_list.Manifest.Unread.{
  reading-IsBlind, get_release_schema-IsBlind, extract_layers_oci-IsBlind, list_catalogs-IsBlind,
}
use golang_imageindex_list.Manifest.Service as ManifestService
use golang_imageindex_list.Mirror.Images.{Images}
use golang_imageindex_list.Mirror.Copy as MirrorCopy
use golang_imageindex_list.Mirror.Unread.{AreBlind, copy-IsBlind}
use golang_imageindex_list.Collector.Paths.{
  path, image_index_dir, operator_cache_dir, operator_copy_dir, operator_blobs_dir, operator_blob,
  configs_dir, release_cache_dir, release_copy_dir, release_blob, release_blobs_dir, release_to_dir,
  artifacts_dir,
}
use golang_imageindex_list.Collector.Fetch.{
  copy_image_to, first_operator_manifest, first_release_manifest, logged_index, fetch_operator,
  fetch_release,
}
use golang_imageindex_list.Collector.Collect.{
  log_failure, unless_cached, list_components, list_operator, list_operators, list_release,
  collect_operator, collect_release, collect,
}

module _ {O : Os} {other : CopyOptions} where
  first_operator-IsBlind :
      (g : GlobalOptions) (ms : List OciManifest)
      → IsBlind O other (first_operator_manifest {O = O} g ms)
  unfolding first_operator_manifest
  first_operator-IsBlind g [] = IsBlind-fail _
  first_operator-IsBlind g (m ∷ ms) =
      IsBlind-if (not (contains m.digest (codes "sha256"))) (IsBlind-fail _) (IsBlind-pure m)

  first_release-IsBlind :
      (ms : List OciManifest) → IsBlind O other (first_release_manifest {O = O} ms)
  unfolding first_release_manifest
  first_release-IsBlind [] = IsBlind-fail _
  first_release-IsBlind (m ∷ ms) = IsBlind-pure m

  logged_index-IsBlind : (r : Result (Option OciSchema)) → IsBlind O other (logged_index {O = O} r)
  unfolding logged_index
  logged_index-IsBlind (ok index) = IsBlind-pure index
  logged_index-IsBlind (err e) = IsBlind-bind (IsBlind-log _ _ _) (λ _. IsBlind-fail _)

  pub log_failure-IsBlind :
      (format : Bytes) (r : Result (Unit {0})) → IsBlind O other (log_failure {O = O} format r)
  unfolding log_failure
  log_failure-IsBlind format (ok _) = IsBlind-pure tt
  log_failure-IsBlind format (err e) = IsBlind-log _ _ _

  unless_cached-IsBlind :
      (dir : Bytes) {fetch : Exec (World O) (Unit {0})}
      → IsBlind O other fetch
      → IsBlind O other (unless_cached dir fetch)
  unfolding unless_cached
  unless_cached-IsBlind dir b = record {
    at = λ w. elim (Bool-cases (is_missing (O.stat w.os dir))) [
      | inl absent ↦ rw absent (b.at w)
      | inr there ↦ rw there ((IsBlind-pure {other = other} tt).at w)
    ];
  }

module _ {O : Os} {other : CopyOptions} {images : Images O} (formats : Formats)
    (k : AreBlind other images) (g : GlobalOptions) where
  copy_image_to-IsBlind :
      (dir : Bytes) → IsBlind O other (copy_image_to (MirrorCopy.service images) g dir)
  unfolding copy_image_to
  copy_image_to-IsBlind dir =
      IsBlind-bind (IsBlind-os_call _)
        (λ _. IsBlind-bind (IsBlind-log _ _ _) (λ _. copy-IsBlind k _ _))

  fetch_operator-IsBlind :
      IsBlind O other
        (fetch_operator (ManifestService.service formats) (MirrorCopy.service images) g)
  unfolding fetch_operator get_image_index get_image_manifest get_operator_config
  fetch_operator-IsBlind = IsBlind-bind (copy_image_to-IsBlind _) (λ _.
      IsBlind-bind (reading-IsBlind _ formats.unmarshal_oci) (λ index.
        IsBlind-bind (IsBlind-deref index) (λ schema.
          IsBlind-bind (first_operator-IsBlind g schema.manifests) (λ first.
            IsBlind-bind (IsBlind-deref _) (λ part. IsBlind-bind (IsBlind-log _ _ _) (λ _.
              IsBlind-bind (reading-IsBlind _ formats.unmarshal_oci) (λ oci.
                IsBlind-bind (IsBlind-deref oci) (λ image.
                  IsBlind-bind (IsBlind-deref _) (λ config_part.
                    IsBlind-bind (reading-IsBlind _ formats.unmarshal_operator_config) (λ config.
                      IsBlind-bind (IsBlind-deref config) (λ ocs.
                        IsBlind-bind (IsBlind-log _ _ _)
                          (λ _. extract_layers_oci-IsBlind formats _ _ _ oci))))))))))))

  fetch_release-IsBlind :
      IsBlind O other
        (fetch_release (ManifestService.service formats) (MirrorCopy.service images) g)
  unfolding fetch_release get_image_index get_image_manifest
  fetch_release-IsBlind = IsBlind-bind (copy_image_to-IsBlind _) (λ _.
      IsBlind-bind (IsBlind-try (reading-IsBlind _ formats.unmarshal_oci)) (λ found.
        IsBlind-bind (logged_index-IsBlind found) (λ index.
          IsBlind-bind (IsBlind-deref index) (λ schema.
            IsBlind-bind (first_release-IsBlind schema.manifests) (λ first.
              IsBlind-bind (IsBlind-deref _) (λ part. IsBlind-bind (IsBlind-log _ _ _) (λ _.
                IsBlind-bind (IsBlind-wrapped _ (reading-IsBlind _ formats.unmarshal_oci)) (λ oci.
                  IsBlind-bind (IsBlind-deref oci) (λ image.
                    IsBlind-bind (IsBlind-log _ _ _)
                      (λ _. extract_layers_oci-IsBlind formats _ _ _ oci))))))))))

  list_operator-IsBlind :
      (configs file : Bytes)
      → IsBlind O other (list_operator (ManifestService.service formats) configs file)
  unfolding list_operator
  list_operator-IsBlind configs file = IsBlind-bind (IsBlind-log _ _ _) (λ _.
      IsBlind-bind (IsBlind-try (list_catalogs-IsBlind formats configs file))
        (λ listed. log_failure-IsBlind _ listed))

  collect_operator-IsBlind :
      IsBlind O other
        (collect_operator (ManifestService.service formats) (MirrorCopy.service images) g)
  unfolding collect_operator list_operators
  collect_operator-IsBlind = IsBlind-bind (unless_cached-IsBlind _ fetch_operator-IsBlind) (λ _.
      IsBlind-bind (IsBlind-os_read _) (λ files. IsBlind-bind (IsBlind-log _ _ _) (λ _.
        IsBlind-bind (IsBlind-log _ _ _) (λ _. IsBlind-for_each files (list_operator-IsBlind _)))))

  collect_release-IsBlind :
      IsBlind O other
        (collect_release (ManifestService.service formats) (MirrorCopy.service images) g)
  unfolding collect_release list_release list_components
  collect_release-IsBlind = IsBlind-bind (unless_cached-IsBlind _ fetch_release-IsBlind) (λ _.
      IsBlind-bind (IsBlind-log _ _ _) (λ _. IsBlind-bind (IsBlind-log _ _ _) (λ _.
        IsBlind-bind (get_release_schema-IsBlind formats _)
          (λ components. IsBlind-for_each components (λ img. IsBlind-log _ _ _)))))

module _ {O : Os} {other : CopyOptions} {images : Images O} (formats : Formats)
    (k : AreBlind other images) where
  pub collect-IsBlind :
      IsBlind O other (collect (ManifestService.service formats) (MirrorCopy.service images))
  unfolding collect collect_operator collect_release fetch_operator fetch_release copy_image_to
      first_operator_manifest list_operators list_release path image_index_dir operator_cache_dir
      operator_copy_dir operator_blobs_dir operator_blob configs_dir release_cache_dir
      release_copy_dir release_blob release_blobs_dir release_to_dir artifacts_dir
  collect-IsBlind = IsBlind-bind (IsBlind-try (IsBlind-os_call _)) (λ created.
      IsBlind-bind (log_failure-IsBlind _ created) (λ _.
        IsBlind-options (λ o. o.global) (λ opts. refl)
          (λ g.
            IsBlind-bind
              (IsBlind-if (contains g.image_index (codes "operator"))
                (collect_operator-IsBlind formats k g) (IsBlind-pure tt))
              (λ _.
                IsBlind-if (contains g.image_index (codes "release"))
                  (collect_release-IsBlind formats k g) (IsBlind-pure tt)))))
