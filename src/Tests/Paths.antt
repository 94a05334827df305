-- ===== src/Tests/Paths.antt =====
-- The theorems about paths, at concrete references.
use golang_imageindex_list.Prelude.{codes, ◌++◌, ◌≡◌, ◌≢◌, refl}
use golang_imageindex_list.Collector.Paths.{
  image_index_dir, release_to_dir, artifacts_dir, release_cache_dir,
}
use golang_imageindex_list.Collector.Paths.Layout.{release_to_dir-apart}
use golang_imageindex_list.Tests.Values.{global}

redhat_dir :
    image_index_dir (codes "registry.redhat.io/redhat/redhat-operator-index:v4.12")
    ≡ codes "redhat-operator-index/v4.12"
unfolding image_index_dir
redhat_dir = refl

release_to_dir-apart_example :
    (release_to_dir global ++ codes "/a" ≢ artifacts_dir global ++ codes "/b")
    × (release_to_dir global ++ codes "/a" ≢ release_cache_dir global ++ codes "/b")
release_to_dir-apart_example = release_to_dir-apart global (codes "/a") (codes "/b")
