-- ===== src/Collector/Paths.antt =====
-- pkg/index/list-images.go: the constants, and the paths that `Collect` puts together.
pub mod Naming
pub mod Layout
use golang_imageindex_list.Prelude.{Bytes, codes, List, [], ◌∷◌, ◌++◌}
use golang_imageindex_list.Strings.{split, join, replace_all}
use golang_imageindex_list.Options.{GlobalOptions}

abbrev pub operator_image_dir : Bytes
operator_image_dir = codes "operator-images"

abbrev pub release_image_dir : Bytes
release_image_dir = codes "release-images"

abbrev pub operator_image_extract_dir : Bytes
operator_image_extract_dir = codes "hold-operators"

abbrev pub release_image_extract_dir : Bytes
release_image_extract_dir = codes "hold-releases"

abbrev pub blobs_dir : Bytes
blobs_dir = codes "blobs/sha256"

abbrev pub docker_protocol : Bytes
docker_protocol = codes "docker://"

-- `ociProtocol`, which nothing reads.
abbrev oci_protocol : Bytes
oci_protocol = codes "oci://"

abbrev pub oci_protocol_trimmed : Bytes
oci_protocol_trimmed = codes "oci:"

abbrev pub logs_file : Bytes
logs_file = codes "logs/util.log"

abbrev pub release_json_path : Bytes
release_json_path = codes "release-manifests/image-references"

abbrev pub release_manifest : Bytes
release_manifest = codes "release-manifests"

-- The outer variable `label` of `Collect`.
abbrev pub configs_label : Bytes
configs_label = codes "/configs"

-- `hld[len(hld)-1]`; a split is never empty.
unfoldable pub last_part : List Bytes → Bytes
last_part [] = []
last_part (p ∷ []) = p
last_part (p ∷ q ∷ ps) = last_part (q ∷ ps)

-- `imageIndexDir`
unfoldable pub image_index_dir : Bytes → Bytes
unfolding last_part split replace_all
image_index_dir reference = replace_all (last_part (split reference b'/')) (codes ":") (codes "/")

-- `strings.Join(parts, "/")`
unfoldable pub path : List Bytes → Bytes
unfolding join
path parts = join parts (codes "/")

module _ (g : GlobalOptions) where
  -- `cacheDir`, which is also `toDir` for an operator.
  unfoldable pub operator_cache_dir : Bytes
  unfolding path image_index_dir
  operator_cache_dir = path (g.dir ∷ operator_image_extract_dir ∷ image_index_dir g.reference ∷ [])

  -- `copyDir`
  unfoldable pub operator_copy_dir : Bytes
  unfolding path image_index_dir
  operator_copy_dir = path (g.dir ∷ operator_image_dir ∷ image_index_dir g.reference ∷ [])

  -- `fromDir`
  unfoldable pub operator_blobs_dir : Bytes
  unfolding path image_index_dir
  operator_blobs_dir =
      path (g.dir ∷ operator_image_dir ∷ image_index_dir g.reference ∷ blobs_dir ∷ [])

  -- `manifestDir` and `catalogDir`
  unfoldable pub operator_blob : Bytes → Bytes
  unfolding path image_index_dir
  operator_blob part =
      path (g.dir ∷ operator_image_dir ∷ image_index_dir g.reference ∷ blobs_dir ∷ part ∷ [])

  -- `configsDir`
  unfoldable pub configs_dir : Bytes
  unfolding path image_index_dir
  configs_dir =
      path (g.dir ∷ operator_image_extract_dir ∷ image_index_dir g.reference ∷ configs_label ∷ [])

  -- `cacheDir`
  unfoldable pub release_cache_dir : Bytes
  unfolding path image_index_dir
  release_cache_dir = path (g.dir ∷ release_image_extract_dir ∷ image_index_dir g.reference ∷ [])

  -- `copyDir`
  unfoldable pub release_copy_dir : Bytes
  unfolding path image_index_dir
  release_copy_dir = path (g.dir ∷ release_image_dir ∷ image_index_dir g.reference ∷ [])

  -- `manifestDir`
  unfoldable pub release_blob : Bytes → Bytes
  unfolding path release_copy_dir
  release_blob part = path (release_copy_dir ∷ blobs_dir ∷ part ∷ [])

  -- `fromDir`
  unfoldable pub release_blobs_dir : Bytes
  unfolding path image_index_dir
  release_blobs_dir =
      path (g.dir ∷ release_image_dir ∷ image_index_dir g.reference ∷ blobs_dir ∷ [])

  -- `toDir`: the list that is joined has one element, the sum of the three names.
  unfoldable pub release_to_dir : Bytes
  unfolding path image_index_dir
  release_to_dir = path ((g.dir ++ release_image_extract_dir ++ image_index_dir g.reference) ∷ [])

  -- `artifactsDir`
  unfoldable pub artifacts_dir : Bytes
  unfolding path image_index_dir
  artifacts_dir =
      path
        (g.dir ∷ release_image_extract_dir ∷ image_index_dir g.reference ∷ release_json_path ∷ [])
