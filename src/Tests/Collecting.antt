-- ===== src/Tests/Collecting.antt =====
-- The theorems about the collector, over the documents of the runs.
use golang_imageindex_list.Prelude.{codes, ◌++◌, [], ◌∷◌, some, ◌≡◌, ◌≢◌, inr, refl, arith}
use golang_imageindex_list.Strings.{contains}
use golang_imageindex_list.Exec.{panicked, pure, ◌>>=◌}
use golang_imageindex_list.World.{World, os_call}
use golang_imageindex_list.Manifest.{Manifest}
use golang_imageindex_list.Manifest.Service as ManifestService
use golang_imageindex_list.Collector.Paths.{
  operator_cache_dir, release_cache_dir, configs_dir, artifacts_dir,
}
use golang_imageindex_list.Collector.Fetch.{copy_image_to, fetch_operator, fetch_release}
use golang_imageindex_list.Collector.Collect.{list_operators, list_release, collect}
use golang_imageindex_list.Collector.Safe.{collect_safe}
use golang_imageindex_list.Collector.Panics.{fetch_operator_panics, fetch_release_panics}
use golang_imageindex_list.Collector.Listing.{operators_listed, release_listed, listing_lem}
use golang_imageindex_list.Manifest.Documents.{or_nothing}
use golang_imageindex_list.Manifest.Documents.Laws.{images_of}
use golang_imageindex_list.Collector.Paths.{operator_copy_dir, release_copy_dir}
use golang_imageindex_list.Tests.Memory.{Disk, memory, file, dir}
use golang_imageindex_list.Tests.Trusted.{
  readers, mirror, called, called_type, called-CopiesLayout, mirror-IsSafeMirror,
}
use golang_imageindex_list.Tests.Values.{idle_mirror, formats, global, world, bare_index, no_colon}

abbrev manifest : Manifest memory
manifest = ManifestService.service formats

collect_safe_example : (collect (ManifestService.service readers) mirror called).0 ≢ panicked
collect_safe_example =
    collect_safe readers mirror-IsSafeMirror called called-CopiesLayout (inr called_type)

abbrev both_there : Disk
both_there = (operator_cache_dir global, dir) ∷ (release_cache_dir global, dir) ∷ []

-- A manifest component whose indexes have a digest without a colon.
abbrev bare_manifest : Manifest memory
bare_manifest = record manifest { get_image_index = λ path. pure (some bare_index) }

abbrev after_operator_copy : World memory
after_operator_copy = (copy_image_to idle_mirror global (operator_copy_dir global) (world [])).1

abbrev after_release_copy : World memory
after_release_copy = (copy_image_to idle_mirror global (release_copy_dir global) (world [])).1

fetch_operator_panics_example :
    fetch_operator bare_manifest idle_mirror global (world []) ≡ (panicked, after_operator_copy)
unfolding contains copy_image_to os_call ◌>>=◌
fetch_operator_panics_example =
    fetch_operator_panics bare_manifest idle_mirror global (world []) after_operator_copy
      after_operator_copy bare_index no_colon [] refl
      (omega arith, (omega arith, (omega arith, (omega arith, (omega arith, (omega arith, tt))))))
      refl refl refl

fetch_release_panics_example :
    fetch_release bare_manifest idle_mirror global (world []) ≡ (panicked, after_release_copy)
unfolding contains copy_image_to os_call ◌>>=◌
fetch_release_panics_example =
    fetch_release_panics bare_manifest idle_mirror global (world []) after_release_copy
      after_release_copy bare_index no_colon [] refl
      (omega arith, (omega arith, (omega arith, (omega arith, (omega arith, (omega arith, tt))))))
      refl refl

-- A catalog of one operator.
abbrev listed_disk : Disk
listed_disk = (configs_dir global ++ codes "/op/catalog.json", file (codes "{}")) ∷ []

listing_lem_example :
    (list_operators manifest global (world listed_disk)
      ≡ operators_listed formats global
          (memory.read_dir listed_disk (configs_dir global))
          (world listed_disk))
    × (list_release manifest global (world listed_disk)
        ≡ release_listed global
            (images_of (
              formats.unmarshal_release
                (or_nothing (memory.read_file listed_disk (artifacts_dir global)))))
            (world listed_disk))
listing_lem_example = listing_lem formats global (world listed_disk)
