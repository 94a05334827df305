-- ===== src/Tests/Extraction.antt =====
-- The theorems about archives and layers, at a small archive.
use golang_imageindex_list.Prelude.{codes, [], ◌∷◌, some, ◌≡◌, ◌↔◌, refl, true}
use golang_imageindex_list.Prelude.{if◌then◌else◌}
use golang_imageindex_list.Strings.{contains}
use golang_imageindex_list.Strings.Splitting.{Lacks}
use golang_imageindex_list.Exec.{returned, panicked}
use golang_imageindex_list.World.{info}
use golang_imageindex_list.Log.{say}
use golang_imageindex_list.Manifest.Untar.{untar_loop}
use golang_imageindex_list.Manifest.Untar.Filter.{matching, untar_loop-matching}
use golang_imageindex_list.Manifest.Layers.{is_missing, extract_layer, extract_layers_oci}
use golang_imageindex_list.Manifest.Layers.Panics.{extract_layer_panics_iff}
use golang_imageindex_list.Manifest.Layers.Laws.{named, extraction, extract_layers_oci_lem}
use golang_imageindex_list.Tests.Memory.{Disk, memory, file}
use golang_imageindex_list.Tests.Values.{formats, archive, mixed, good, bad, no_colon, world}

-- A disk with a file beside the directory `out`.
abbrev kept_disk : Disk
kept_disk = (codes "kept", file (codes "z")) ∷ []

untar_loop-matching_example :
    untar_loop {O = memory} (codes "out") (codes "configs") archive
    ≡ untar_loop (codes "out") [] (matching (codes "configs") archive)
untar_loop-matching_example = untar_loop-matching (codes "out") (codes "configs") archive

extract_layers_oci_lem_example :
    extract_layers_oci formats
      (codes "blobs")
      (codes "out")
      (codes "/configs")
      (some mixed)
      (world kept_disk)
    ≡ (if is_missing (memory.stat kept_disk (codes "out/configs"))
        then extraction formats
            (codes "blobs")
            (codes "out")
            (codes "/configs")
            (some mixed)
            (world kept_disk)
        else (returned tt, say info (codes "tar exists") [] (world kept_disk)))
extract_layers_oci_lem_example =
    extract_layers_oci_lem formats (codes "blobs") (codes "out") (codes "/configs") (some mixed)
      (world kept_disk)

-- Of the layers `good`, `bad` and `good`, the first is extracted.
named_layers : named (good ∷ bad ∷ good ∷ []) ≡ good ∷ []
unfolding named contains
named_layers = refl

extract_layer_panics_iff_example :
    ((extract_layer formats (codes "blobs") (codes "out") (codes "/configs") no_colon (world [])).0
      ≡ panicked)
    ↔ ((contains no_colon.digest (codes "sha256") ≡ true) × Lacks b':' no_colon.digest)
extract_layer_panics_iff_example =
    extract_layer_panics_iff formats (codes "blobs") (codes "out") (codes "/configs") no_colon
      (world [])
