-- ===== src/Tests/Served.antt =====
-- The theorems about a request for an image that is there, at the disks of a run before.
use golang_imageindex_list.Prelude.{codes, [], ◌∷◌, ◌≡◌, refl, bytes_eq}
use golang_imageindex_list.Strings.{contains}
use golang_imageindex_list.Exec.{ok, returned, ◌>>=◌}
use golang_imageindex_list.World.{World, os_call}
use golang_imageindex_list.Log.Reports.{logged}
use golang_imageindex_list.Schema.Catalog.{zero_related_image}
use golang_imageindex_list.Collector.Paths.{
  operator_cache_dir, configs_dir, release_cache_dir, artifacts_dir,
}
use golang_imageindex_list.Collector.Collect.{log_failure}
use golang_imageindex_list.Collector.Listing.{operators_listed, release_listed}
use golang_imageindex_list.Cli.Executor.{check_type, validate, complete}
use golang_imageindex_list.Cli.Main.{run_command}
use golang_imageindex_list.Cli.Prepared.{Makes, prepared}
use golang_imageindex_list.Cli.Served.{
  options, opened, cached_operator_served, cached_release_served,
}
use golang_imageindex_list.Tests.Memory.{memory, dir}
use golang_imageindex_list.Tests.Values.{formats, images, world, release_options}

-- One operator.
abbrev operator_there : World memory
operator_there = world (
    (codes "working-dir/hold-operators/operator/1", dir)
    ∷ (codes "working-dir/hold-operators/operator/1//configs/op", dir)
    ∷ [])

cached_operator_served_example :
    run_command formats images (codes "operator" ∷ []) operator_there ≡ (
      returned 0,
      (operators_listed formats
          (options formats images [] (codes "operator") operator_there)
          (ok (codes "working-dir/hold-operators/operator/1//configs/op" ∷ []))
          (opened formats images [] (codes "operator") operator_there)).1,
    )
unfolding Makes validate check_type contains bytes_eq complete prepared logged operator_cache_dir
    configs_dir log_failure os_call ◌>>=◌
cached_operator_served_example =
    cached_operator_served formats images [] operator_there
      (codes "working-dir/hold-operators/operator/1//configs/op" ∷ []) refl
      (refl, (refl, (refl, (refl, tt)))) refl refl

-- A release.
abbrev release_there : World memory
release_there = record (world ((codes "working-dir/hold-releases/release/4", dir) ∷ [])) {
  opts = record (world []).opts { global = release_options };
}

cached_release_served_example : run_command formats images (codes "release" ∷ []) release_there ≡ (
  returned 0,
  (release_listed
      (options formats images [] (codes "release") release_there)
      (ok (record zero_related_image { name = codes "cli" } ∷ []))
      (opened formats images [] (codes "release") release_there)).1,
)
unfolding Makes validate check_type contains bytes_eq complete prepared logged release_cache_dir
    artifacts_dir log_failure os_call ◌>>=◌
cached_release_served_example =
    cached_release_served formats images [] release_there
      (record zero_related_image { name = codes "cli" } ∷ []) refl
      (refl, (refl, (refl, (refl, tt)))) refl refl
