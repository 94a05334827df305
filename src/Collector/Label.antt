-- ===== src/Collector/Label.antt =====
-- An operator image whose label names another directory than the one that is listed.
use mathlib.Core.Path.{subst}
use golang_imageindex_list.Prelude.{Bytes, codes, some, ◌≡◌, ◌≢◌, ◌∙◌, refl, sym, ap, true}
use golang_imageindex_list.Exec.{err, returned, Exec}
use golang_imageindex_list.Exec.Laws.{bind_not_returned}
use golang_imageindex_list.Strings.{contains}
use golang_imageindex_list.Os.{Os}
use golang_imageindex_list.World.{World}
use golang_imageindex_list.Options.{GlobalOptions}
use golang_imageindex_list.Log.Reports.{logged}
use golang_imageindex_list.Schema.Oci.{OciSchema}
use golang_imageindex_list.Schema.OperatorConfig.{OperatorConfigSchema}
use golang_imageindex_list.Manifest.Formats.{Formats}
use golang_imageindex_list.Manifest.Untar.{trim_label}
use golang_imageindex_list.Manifest.Untar.Frame.{KeptAt}
use golang_imageindex_list.Manifest.Layers.{is_missing, digest_part}
use golang_imageindex_list.Manifest.Layers.Archives.{SameBlobs, LayerTargets}
use golang_imageindex_list.Manifest.Layers.Kept.{extract_layers_oci_kept}
use golang_imageindex_list.Manifest.Service as ManifestService
use golang_imageindex_list.Mirror.{Mirror}
use golang_imageindex_list.Collector.Paths.{
  operator_cache_dir, operator_copy_dir, operator_blobs_dir, operator_blob, configs_dir,
}
use golang_imageindex_list.Collector.Fetch.{copy_image_to, fetch_operator}
use golang_imageindex_list.Collector.Collect.{unless_cached, list_operators, collect_operator}
use golang_imageindex_list.Collector.Follow.{Holds, IsCopied, fetch_operator_follows}
use golang_imageindex_list.Collector.Listing.{operators_listed, listing_lem}

-- The directory that is listed cannot be read.
abbrev pub IsUnlistable : (O : Os) → GlobalOptions → O.State → Type 0
IsUnlistable O g s = (e : Bytes) × (O.read_dir s (configs_dir g) ≡ err e)

module _ {O : Os} (formats : Formats) (mirror : Mirror O) (g : GlobalOptions) where
  unlisted :
      (w : World O)
      → IsUnlistable O g w.os
      → (list_operators (ManifestService.service formats) g w).0 ≢ returned tt
  unfolding operators_listed
  unlisted w (e, h) done =
      let failing = (listing_lem formats g w).0 ∙ ap (λ r. operators_listed formats g r w) h in
      absurd (cc (sym (ap (λ r. r.0) failing) ∙ done))

  fetched_state :
      (w : World O)
      → is_missing (O.stat w.os (operator_cache_dir g)) ≡ true
      → (fetch : Exec (World O) (Unit {0})) → unless_cached (operator_cache_dir g) fetch w ≡ fetch w
  unfolding unless_cached
  fetched_state w absent fetch = rw absent refl

  module _ (w now : World O) (index image : OciSchema) (part : Bytes)
      (config : OperatorConfigSchema) (config_part : Bytes) where
    -- An operator image that is not there yet, and whose documents are there once it is copied, found
    -- by their digests, is not listed if the directory that is listed cannot be read then, and none of
    -- the entries whose name contains the label changes that or goes to a blob: the label says what is
    -- extracted, and not what is listed.
    pub label_unlisted :
        is_missing (O.stat w.os (operator_cache_dir g)) ≡ true
        → copy_image_to mirror g (operator_copy_dir g) w ≡ (returned tt, now)
        → (c : IsCopied O formats (operator_copy_dir g) (operator_blob g) now.os index image part)
        → contains c.first.digest (codes "sha256") ≡ true
        → digest_part image.config.digest ≡ some config_part
        → Holds O now.os formats.unmarshal_operator_config (operator_blob g config_part) config
        → LayerTargets O formats
            (operator_blobs_dir g)
            now.os
            (KeptAt O (SameBlobs O formats (operator_blobs_dir g) now.os image.layers))
            (operator_cache_dir g)
            (trim_label config.config.labels.operators_operatorframework_io_index_configs_v1)
            image.layers
        → LayerTargets O formats
            (operator_blobs_dir g)
            now.os
            (KeptAt O (IsUnlistable O g))
            (operator_cache_dir g)
            (trim_label config.config.labels.operators_operatorframework_io_index_configs_v1)
            image.layers
        → IsUnlistable O g now.os
        → (collect_operator (ManifestService.service formats) mirror g w).0 ≢ returned tt
    unfolding collect_operator logged
    label_unlisted absent copied c named split config_there untouched kept h =
        let fetch = fetch_operator (ManifestService.service formats) mirror g in
        let followed =
          fetched_state w absent fetch
          ∙ fetch_operator_follows formats mirror g w now index image part config config_part copied
              c named split config_there in
        bind_not_returned (unless_cached (operator_cache_dir g) fetch)
          (λ _. list_operators (ManifestService.service formats) g) w
          (λ _ _. unlisted _ (
            subst (λ r. IsUnlistable O g r.1.os) (sym followed)
              (extract_layers_oci_kept formats (operator_blobs_dir g) (operator_cache_dir g) _ image
                (IsUnlistable O g) _ untouched kept h)))
          tt
