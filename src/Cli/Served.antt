-- ===== src/Cli/Served.antt =====
-- A request for an image that is there already, from the arguments to the exit status.
use golang_imageindex_list.Prelude.{Bytes, codes, List, ◌∷◌, ◌≡◌, ap, ◌∙◌, false}
use golang_imageindex_list.Exec.{ok, returned}
use golang_imageindex_list.Os.{Os}
use golang_imageindex_list.World.{World}
use golang_imageindex_list.Options.{GlobalOptions}
use golang_imageindex_list.Schema.Catalog.{RelatedImage}
use golang_imageindex_list.Manifest.Formats.{Formats}
use golang_imageindex_list.Manifest.Documents.{or_nothing}
use golang_imageindex_list.Manifest.Documents.Laws.{images_of}
use golang_imageindex_list.Manifest.Layers.{is_missing}
use golang_imageindex_list.Manifest.Service as ManifestService
use golang_imageindex_list.Mirror.Images.{Images}
use golang_imageindex_list.Mirror.Copy as MirrorCopy
use golang_imageindex_list.Collector.Paths.{
  operator_cache_dir, configs_dir, release_cache_dir, artifacts_dir,
}
use golang_imageindex_list.Collector.Collect.{collect_operator}
use golang_imageindex_list.Collector.Branch.{open_log, collect_is_operator, collect_is_release}
use golang_imageindex_list.Collector.Listing.{operators_listed, release_listed}
use golang_imageindex_list.Collector.Cached.{operator_cached_listed, release_cached_listed}
use golang_imageindex_list.Cli.Executor.{validate, complete}
use golang_imageindex_list.Cli.Main.{run_command}
use golang_imageindex_list.Cli.Prepared.{IsMade, prepared, prepared-opts}
use golang_imageindex_list.Cli.Request.{ended, run_command_collects, completed-image_index}

module _ {O : Os} (formats : Formats) (images : Images O) (args : List Bytes) where
  -- The state in which the collector is called.
  abbrev pub called : Bytes → World O → World O
  called image_type w =
      prepared (complete formats images (image_type ∷ args) (validate (image_type ∷ args) w).1).1

  abbrev pub options : Bytes → World O → GlobalOptions
  options image_type w = (called image_type w).opts.global

  -- The state behind the creation of the log file.
  abbrev pub opened : Bytes → World O → World O
  opened image_type w = (open_log (called image_type w)).1

  pub called-image_index :
      (image_type : Bytes) (w : World O)
      → (called image_type w).opts.global.image_index ≡ image_type
  called-image_index image_type w =
      ap (λ o. o.global.image_index) (prepared-opts _)
      ∙ completed-image_index formats images image_type args (validate (image_type ∷ args) w).1

  -- The four calls that the run makes of `os.MkdirAll` succeed.
  abbrev pub MakesDirectories : Bytes → World O → Type 0
  MakesDirectories image_type w =
      IsMade (complete formats images (image_type ∷ args) (validate (image_type ∷ args) w).1).1

  module _ (w : World O) where
    -- A request for operators ends as the branch of the operators returns.
    pub operator_served :
        (now : World O)
        → (validate (codes "operator" ∷ args) w).0 ≡ returned tt
        → MakesDirectories (codes "operator") w
        → collect_operator
            (ManifestService.service formats)
            (MirrorCopy.service images)
            (options (codes "operator") w)
            (opened (codes "operator") w)
          ≡ (returned tt, now)
        → run_command formats images (codes "operator" ∷ args) w ≡ (returned 0, now)
    unfolding ended
    operator_served now valid made collected =
        run_command_collects formats images (codes "operator") args w valid made
        ∙ ap ended (
            collect_is_operator (ManifestService.service formats) (MirrorCopy.service images)
              (called (codes "operator") w) (called-image_index (codes "operator") w)
            ∙ collected)

    -- If the four directories of the run can be made, a request for operators that `Validate` lets through, for an
    -- image that is there and whose directory can be read, ends with status 0 and the listing of
    -- every operator, whatever the copy of an image would do.
    pub cached_operator_served :
        (names : List Bytes)
        → (validate (codes "operator" ∷ args) w).0 ≡ returned tt
        → MakesDirectories (codes "operator") w
        → is_missing (
            O.stat
              (opened (codes "operator") w).os
              (operator_cache_dir (options (codes "operator") w)))
          ≡ false
        → O.read_dir (opened (codes "operator") w).os (configs_dir (options (codes "operator") w))
          ≡ ok names
        → run_command formats images (codes "operator" ∷ args) w ≡ (
          returned 0,
          (operators_listed formats
              (options (codes "operator") w)
              (ok names)
              (opened (codes "operator") w)).1,
        )
    unfolding operators_listed
    cached_operator_served names valid made cached readable = operator_served _ valid made (
        operator_cached_listed formats (MirrorCopy.service images) _ _ cached
        ∙ ap
            (λ r.
              operators_listed formats (options (codes "operator") w) r
                (opened (codes "operator") w))
            readable)

    -- If the four directories of the run can be made, a request for a release that `Validate` lets through, for an
    -- image that is there and whose artifacts hold a release, ends with status 0 and the listing of
    -- every component, whatever the copy of an image would do.
    pub cached_release_served :
        (components : List RelatedImage)
        → (validate (codes "release" ∷ args) w).0 ≡ returned tt
        → MakesDirectories (codes "release") w
        → is_missing (
            O.stat
              (opened (codes "release") w).os
              (release_cache_dir (options (codes "release") w)))
          ≡ false
        → images_of (
            formats.unmarshal_release (
              or_nothing (
                O.read_file
                  (opened (codes "release") w).os
                  (artifacts_dir (options (codes "release") w)))))
          ≡ ok components
        → run_command formats images (codes "release" ∷ args) w ≡ (
          returned 0,
          (release_listed
              (options (codes "release") w)
              (ok components)
              (opened (codes "release") w)).1,
        )
    unfolding release_listed ended
    cached_release_served components valid made cached readable =
        run_command_collects formats images (codes "release") args w valid made
        ∙ ap ended (
            collect_is_release (ManifestService.service formats) (MirrorCopy.service images)
              (called (codes "release") w) (called-image_index (codes "release") w)
            ∙ (release_cached_listed formats (MirrorCopy.service images) _ _ cached
                ∙ ap
                    (λ r.
                      release_listed (options (codes "release") w) r (opened (codes "release") w))
                    readable))
