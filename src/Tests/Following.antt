-- ===== src/Tests/Following.antt =====
-- The theorems about the digests of an image, on disks that hold its documents.
use golang_imageindex_list.Prelude.{arith, codes, [], ◌∷◌, ◌++◌, some, ◌≡◌, refl, bytes_eq}
use golang_imageindex_list.Strings.{contains, split}
use golang_imageindex_list.Exec.{◌>>=◌}
use golang_imageindex_list.World.{World, info, debug, os_call}
use golang_imageindex_list.Log.Reports.{logged}
use golang_imageindex_list.Manifest.Layers.{extract_layers_oci}
use golang_imageindex_list.Manifest.Service as ManifestService
use golang_imageindex_list.Collector.Paths.{
  image_index_dir, operator_copy_dir, operator_blob, release_copy_dir, release_blob,
}
use golang_imageindex_list.Collector.Fetch.{copy_image_to, fetch_operator, fetch_release}
use golang_imageindex_list.Collector.Follow.{Holds, line}
use golang_imageindex_list.Collector.Layouts.{
  layout_blob, IsLayout, operator_layout_extracted, release_layout_extracted,
}
use golang_imageindex_list.Tests.Memory.{Disk, memory, file}
use golang_imageindex_list.Tests.Values.{
  idle_mirror, release_options, formats, global, world, document, operator_config, good,
}

abbrev operator_disk : Disk
operator_disk =
    (operator_copy_dir global ++ codes "/index.json", file (codes "{}"))
    ∷ (layout_blob (operator_copy_dir global) (codes "ab"), file (codes "{}"))
    ∷ []

abbrev operator_copied : World memory
operator_copied =
    (copy_image_to idle_mirror global (operator_copy_dir global) (world operator_disk)).1

operator_documents :
    IsLayout memory formats
      (operator_copy_dir global)
      operator_copied.os
      document
      document
      (codes "ab")
unfolding bytes_eq split operator_copy_dir operator_blob copy_image_to os_call ◌>>=◌
operator_documents = record {
  first = good;
  others = [];
  listed = refl;
  digest = refl;
  digits = (omega arith, (omega arith, tt));
  index_there = record { text = codes "{}"; there = refl; decoded = refl };
  image_there = record { text = codes "{}"; there = refl; decoded = refl };
}

config_there :
    Holds memory operator_copied.os formats.unmarshal_operator_config
      (layout_blob (operator_copy_dir global) (codes "ab"))
      operator_config
unfolding bytes_eq operator_copy_dir operator_blob copy_image_to os_call ◌>>=◌
config_there = record { text = codes "{}"; there = refl; decoded = refl }

operator_layout_extracted_example :
    fetch_operator (ManifestService.service formats) idle_mirror global (world operator_disk)
    ≡ extract_layers_oci formats
        (operator_copy_dir global ++ codes "/blobs/sha256")
        (global.dir ++ codes "/hold-operators/" ++ image_index_dir global.reference)
        (codes "/configs/")
        (some document)
        (logged
          (line info (codes "manifest %v") (codes "ab")
            ∷ line info (codes "label %s") (codes "/configs/")
            ∷ [])
          operator_copied)
unfolding operator_documents contains split copy_image_to os_call ◌>>=◌
operator_layout_extracted_example =
    operator_layout_extracted formats idle_mirror global (world operator_disk) operator_copied
      document document (codes "ab") operator_config (codes "ab") refl operator_documents refl
      (omega arith, (omega arith, tt)) config_there

abbrev release_disk : Disk
release_disk =
    (release_copy_dir release_options ++ codes "/index.json", file (codes "{}"))
    ∷ (layout_blob (release_copy_dir release_options) (codes "ab"), file (codes "{}"))
    ∷ []

abbrev release_copied : World memory
release_copied =
    (copy_image_to idle_mirror release_options (release_copy_dir release_options)
      (world release_disk)).1

release_documents :
    IsLayout memory formats
      (release_copy_dir release_options)
      release_copied.os
      document
      document
      (codes "ab")
unfolding bytes_eq split release_copy_dir release_blob copy_image_to os_call ◌>>=◌
release_documents = record {
  first = good;
  others = [];
  listed = refl;
  digest = refl;
  digits = (omega arith, (omega arith, tt));
  index_there = record { text = codes "{}"; there = refl; decoded = refl };
  image_there = record { text = codes "{}"; there = refl; decoded = refl };
}

release_layout_extracted_example :
    fetch_release (ManifestService.service formats) idle_mirror release_options (world release_disk)
    ≡ extract_layers_oci formats
        (release_copy_dir release_options ++ codes "/blobs/sha256")
        (release_options.dir ++ codes "hold-releases" ++ image_index_dir release_options.reference)
        (codes "release-manifests")
        (some document)
        (logged
          (line debug (codes "image index %v") (codes "ab")
            ∷ line debug (codes "manifest %v ") (codes "sha256:ab")
            ∷ [])
          release_copied)
unfolding split copy_image_to os_call ◌>>=◌
release_layout_extracted_example =
    release_layout_extracted formats idle_mirror release_options (world release_disk) release_copied
      document document (codes "ab") refl release_documents
