-- ===== src/Cli/Lost.antt =====
-- A request for a release that is fetched, and whose artifacts are not where they are looked for.
use golang_imageindex_list.Prelude.{Bytes, codes, List, ◌∷◌, [], true, ◌≡◌, ◌≢◌, ◌∙◌, refl, sym, ap}
use golang_imageindex_list.Exec.{Outcome, err, returned, failed, panicked}
use golang_imageindex_list.Os.{Os}
use golang_imageindex_list.World.{World}
use golang_imageindex_list.Options.{GlobalOptions}
use golang_imageindex_list.Schema.Oci.{OciSchema}
use golang_imageindex_list.Manifest.Formats.{Formats}
use golang_imageindex_list.Manifest.Untar.{trim_label}
use golang_imageindex_list.Manifest.Untar.Frame.{KeptAt}
use golang_imageindex_list.Manifest.Layers.{is_missing}
use golang_imageindex_list.Manifest.Layers.Archives.{SameBlobs, LayerTargets}
use golang_imageindex_list.Manifest.Service as ManifestService
use golang_imageindex_list.Mirror.Images.{Images}
use golang_imageindex_list.Mirror.Copy as MirrorCopy
use golang_imageindex_list.Collector.Paths.{
  release_cache_dir, release_copy_dir, release_blob, release_blobs_dir, release_to_dir,
  release_manifest,
}
use golang_imageindex_list.Collector.Fetch.{copy_image_to}
use golang_imageindex_list.Collector.Follow.{IsCopied}
use golang_imageindex_list.Collector.Branch.{collect_is_release}
use golang_imageindex_list.Collector.Release.{IsUnreadable, release_unlisted}
use golang_imageindex_list.Cli.Executor.{validate}
use golang_imageindex_list.Cli.Main.{run_command}
use golang_imageindex_list.Cli.Request.{ended, run_command_collects}
use golang_imageindex_list.Cli.Served.{
  MakesDirectories, called, called-image_index, options, opened,
}

ended_zero :
    {O : Os} (r : Outcome (Unit {0})) (now : World O)
    → (ended (r, now)).0 ≡ returned 0
    → r ≡ returned tt
unfolding ended
ended_zero (returned _) now h = refl
ended_zero (failed e) now h = absurd (cc)
ended_zero panicked now h = absurd (cc)

module _ {O : Os} (formats : Formats) (images : Images O)
    (empty_fails : (e : Bytes) × (formats.unmarshal_release [] ≡ err e)) (args : List Bytes)
    (w : World O) where
  abbrev g : GlobalOptions
  g = options formats images args (codes "release") w

  abbrev begin : World O
  begin = opened formats images args (codes "release") w

  -- A request for a release that `Validate` lets through, where the four directories of the run can
  -- be made, for an image that is not there yet. If the image is copied with its documents, found
  -- by their digests, its artifacts cannot be read then where they are looked for, none of the
  -- entries whose name contains the label changes that or goes to a blob, and the decoder refuses
  -- an empty text, then the program does not end with status 0, also when the extraction succeeds.
  pub release_never_served :
      (now : World O) (index image : OciSchema) (part : Bytes)
      → (validate (codes "release" ∷ args) w).0 ≡ returned tt
      → MakesDirectories formats images args (codes "release") w
      → is_missing (O.stat begin.os (release_cache_dir g)) ≡ true
      → copy_image_to (MirrorCopy.service images) g (release_copy_dir g) begin ≡ (returned tt, now)
      → IsCopied O formats (release_copy_dir g) (release_blob g) now.os index image part
      → LayerTargets O formats
          (release_blobs_dir g)
          now.os
          (KeptAt O (SameBlobs O formats (release_blobs_dir g) now.os image.layers))
          (release_to_dir g)
          (trim_label release_manifest)
          image.layers
      → LayerTargets O formats
          (release_blobs_dir g)
          now.os
          (KeptAt O (IsUnreadable O g))
          (release_to_dir g)
          (trim_label release_manifest)
          image.layers
      → IsUnreadable O g now.os
      → (run_command formats images (codes "release" ∷ args) w).0 ≢ returned 0
  release_never_served now index image part valid made absent copied c untouched kept h zero =
      let m =
        collect_is_release (ManifestService.service formats) (MirrorCopy.service images)
          (called formats images args (codes "release") w)
          (called-image_index formats images args (codes "release") w) in
      let r =
        run_command_collects formats images (codes "release") args w valid made ∙ ap ended m in
      release_unlisted formats (MirrorCopy.service images) g empty_fails begin now index image part
        absent copied c untouched kept h (ended_zero _ _ (sym (ap (λ r. r.0) r) ∙ zero))
