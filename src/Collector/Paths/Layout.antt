-- ===== src/Collector/Paths/Layout.antt =====
-- How the directories of an image lie in one another.
use golang_imageindex_list.Prelude.{Bytes, codes, ◌∷◌, ◌++◌, ◌≡◌, ◌≢◌, arith, append_assoc}
use mathlib.Core.List.{append_cancel_left}
use golang_imageindex_list.Options.{GlobalOptions}
use golang_imageindex_list.Collector.Paths.{
  operator_copy_dir, operator_blobs_dir, operator_blob, release_cache_dir, release_copy_dir,
  release_blobs_dir, release_blob, release_to_dir, artifacts_dir,
}

abbrev sha256_blob : Bytes → Bytes
sha256_blob part = codes "/blobs/sha256/" ++ part

-- A blob of an image is read where the image was copied to, and where the layers are opened.
pub blobs_in_copy_dir :
    (g : GlobalOptions) (part : Bytes)
    → (operator_blob g part ≡ operator_copy_dir g ++ sha256_blob part)
      × (operator_blob g part ≡ operator_blobs_dir g ++ codes "/" ++ part)
      × (release_blob g part ≡ release_copy_dir g ++ sha256_blob part)
      × (release_blob g part ≡ release_blobs_dir g ++ codes "/" ++ part)
unfolding operator_blob operator_copy_dir operator_blobs_dir release_blob release_copy_dir
    release_blobs_dir
blobs_in_copy_dir g part =
    (simp append_assoc, simp append_assoc, simp append_assoc, simp append_assoc)

first_bytes_differ : (dir s t : Bytes) → dir ++ b'h' ∷ s ≢ dir ++ b'/' ∷ t
first_bytes_differ dir s t h = ground (arith, append_cancel_left dir (b'h' ∷ s) (b'/' ∷ t) h)

-- No path that begins with the directory that a release is extracted to begins with that where its
-- artifacts are looked for, nor with the directory whose absence started the extraction.
pub release_to_dir-apart :
    (g : GlobalOptions) (x y : Bytes)
    → (release_to_dir g ++ x ≢ artifacts_dir g ++ y)
      × (release_to_dir g ++ x ≢ release_cache_dir g ++ y)
unfolding release_to_dir artifacts_dir release_cache_dir
release_to_dir-apart g x y = (
  λ h. first_bytes_differ g.dir _ _ (simp append_assoc at h),
  λ h. first_bytes_differ g.dir _ _ (simp append_assoc at h),
)
