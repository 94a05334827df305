-- ===== src/Collector/Release.antt =====
-- The listing of a release that is fetched and not found again.
use golang_imageindex_list.Prelude.{Bytes, [], true, ◌≡◌, ◌≢◌, ◌∙◌, refl, sym}
use mathlib.Core.Path.{subst}
use golang_imageindex_list.Exec.{err, returned, Exec, ◌>>=◌}
use golang_imageindex_list.Exec.Laws.{bind_not_returned}
use golang_imageindex_list.Os.{Os}
use golang_imageindex_list.World.{World}
use golang_imageindex_list.Options.{GlobalOptions}
use golang_imageindex_list.Manifest.Formats.{Formats}
use golang_imageindex_list.Manifest.Documents.{or_nothing}
use golang_imageindex_list.Manifest.Documents.Laws.{get_release_schema_lem}
use golang_imageindex_list.Manifest.Service as ManifestService
use golang_imageindex_list.Mirror.{Mirror}
use golang_imageindex_list.Collector.Paths.{
  release_cache_dir, artifacts_dir, release_copy_dir, release_blob, release_blobs_dir,
  release_to_dir, release_manifest,
}
use golang_imageindex_list.Collector.Fetch.{copy_image_to, fetch_release}
use golang_imageindex_list.Collector.Follow.{IsCopied, fetch_release_follows}
use golang_imageindex_list.Log.Reports.{logged}
use golang_imageindex_list.Schema.Oci.{OciSchema}
use golang_imageindex_list.Manifest.Untar.{trim_label}
use golang_imageindex_list.Manifest.Untar.Frame.{KeptAt}
use golang_imageindex_list.Manifest.Layers.{is_missing}
use golang_imageindex_list.Manifest.Layers.Archives.{SameBlobs, LayerTargets}
use golang_imageindex_list.Manifest.Layers.Kept.{extract_layers_oci_kept}
use golang_imageindex_list.Collector.Collect.{unless_cached, list_release, collect_release}

-- The file of a release's artifacts cannot be read.
abbrev pub IsUnreadable : (O : Os) → GlobalOptions → O.State → Type 0
IsUnreadable O g s = (e : Bytes) × (O.read_file s (artifacts_dir g) ≡ err e)

module _ {O : Os} (formats : Formats) (mirror : Mirror O) (g : GlobalOptions)
    (empty_fails : (e : Bytes) × (formats.unmarshal_release [] ≡ err e)) where
  not_listed :
      (w : World O)
      → IsUnreadable O g w.os
      → (list_release (ManifestService.service formats) g w).0 ≢ returned tt
  unfolding list_release ◌>>=◌
  not_listed w (e, h) =
      rw (get_release_schema_lem formats (artifacts_dir g))
        (unfold or_nothing in rw (h, empty_fails.1) (λ p. cc))

  fetches :
      (w : World O)
      → is_missing (O.stat w.os (release_cache_dir g)) ≡ true
      → (fetch : Exec (World O) (Unit {0})) → unless_cached (release_cache_dir g) fetch w ≡ fetch w
  unfolding unless_cached
  fetches w absent fetch = rw absent refl

  -- A release that is not there yet, and whose documents are there once it is copied, found by their
  -- digests, is not listed if its artifacts cannot be read then where they are looked for, none of
  -- the entries whose name contains the label changes that or goes to a blob, and the decoder
  -- refuses an empty text.
  pub release_unlisted :
      (w now : World O) (index image : OciSchema) (part : Bytes)
      → is_missing (O.stat w.os (release_cache_dir g)) ≡ true
      → copy_image_to mirror g (release_copy_dir g) w ≡ (returned tt, now)
      → IsCopied O formats (release_copy_dir g) (release_blob g) now.os index image part
      → LayerTargets O formats
          (release_blobs_dir g)
          now.os
          (KeptAt O (SameBlobs O formats (release_blobs_dir g) now.os image.layers))
          (release_to_dir g)
          (trim_label release_manifest)
          image.layers
      → LayerTargets O formats
          (release_blobs_dir g)
          now.os
          (KeptAt O (IsUnreadable O g))
          (release_to_dir g)
          (trim_label release_manifest)
          image.layers
      → IsUnreadable O g now.os
      → (collect_release (ManifestService.service formats) mirror g w).0 ≢ returned tt
  unfolding collect_release logged
  release_unlisted w now index image part absent copied c untouched kept h =
      let fetch = fetch_release (ManifestService.service formats) mirror g in
      let followed =
        fetches w absent fetch
        ∙ fetch_release_follows formats mirror g w now index image part copied c in
      bind_not_returned (unless_cached (release_cache_dir g) fetch)
        (λ _. list_release (ManifestService.service formats) g) w
        (λ _ _. not_listed _ (
          subst (λ r. IsUnreadable O g r.1.os) (sym followed)
            (extract_layers_oci_kept formats (release_blobs_dir g) (release_to_dir g)
              release_manifest image (IsUnreadable O g) _ untouched kept h)))
        tt
