-- ===== src/Collector/Cached.antt =====
-- `Collect` on an artifact that is there.
use golang_imageindex_list.Prelude.{◌≡◌, ◌∙◌, false}
use golang_imageindex_list.Exec.{◌>>=◌}
use golang_imageindex_list.Os.{Os}
use golang_imageindex_list.World.{World}
use golang_imageindex_list.Options.{GlobalOptions}
use golang_imageindex_list.Manifest.{Manifest}
use golang_imageindex_list.Manifest.Layers.{is_missing}
use golang_imageindex_list.Mirror.{Mirror}
use golang_imageindex_list.Manifest.Formats.{Formats}
use golang_imageindex_list.Manifest.Documents.{or_nothing}
use golang_imageindex_list.Manifest.Documents.Laws.{images_of}
use golang_imageindex_list.Manifest.Service as ManifestService
use golang_imageindex_list.Collector.Paths.{
  operator_cache_dir, release_cache_dir, configs_dir, artifacts_dir,
}
use golang_imageindex_list.Collector.Listing.{operators_listed, release_listed, listing_lem}
use golang_imageindex_list.Collector.Collect.{
  unless_cached, list_operators, list_release, collect_operator, collect_release,
}

module _ {O : Os} (manifest : Manifest O) (mirror : Mirror O) (g : GlobalOptions)
    (w : World O) where
  operator_cached :
      is_missing (O.stat w.os (operator_cache_dir g)) ≡ false
      → collect_operator manifest mirror g w ≡ list_operators manifest g w
  unfolding collect_operator unless_cached ◌>>=◌
  operator_cached h = rw h

  release_cached :
      is_missing (O.stat w.os (release_cache_dir g)) ≡ false
      → collect_release manifest mirror g w ≡ list_release manifest g w
  unfolding collect_release unless_cached ◌>>=◌
  release_cached h = rw h

module _ {O : Os} (formats : Formats) (mirror : Mirror O) (g : GlobalOptions) (w : World O) where
  -- An operator that is there is listed, and nothing is fetched.
  pub operator_cached_listed :
      is_missing (O.stat w.os (operator_cache_dir g)) ≡ false
      → collect_operator (ManifestService.service formats) mirror g w
        ≡ operators_listed formats g (O.read_dir w.os (configs_dir g)) w
  operator_cached_listed h =
      operator_cached (ManifestService.service formats) mirror g w h ∙ (listing_lem formats g w).0

  -- A release that is there is listed, and nothing is fetched.
  pub release_cached_listed :
      is_missing (O.stat w.os (release_cache_dir g)) ≡ false
      → collect_release (ManifestService.service formats) mirror g w
        ≡ release_listed g
            (images_of
              (formats.unmarshal_release (or_nothing (O.read_file w.os (artifacts_dir g)))))
            w
  release_cached_listed h =
      release_cached (ManifestService.service formats) mirror g w h ∙ (listing_lem formats g w).1
