-- ===== src/Collector/Panics.antt =====
-- The digests on which fetching an image panics.
use golang_imageindex_list.Prelude.{codes, List, ◌∷◌, some, ◌≡◌, true}
use golang_imageindex_list.Strings.{contains}
use golang_imageindex_list.Strings.Splitting.{Lacks}
use golang_imageindex_list.Exec.{returned, panicked, ◌>>=◌}
use golang_imageindex_list.Os.{Os}
use golang_imageindex_list.World.{World}
use golang_imageindex_list.Options.{GlobalOptions}
use golang_imageindex_list.Schema.Oci.{OciManifest, OciSchema}
use golang_imageindex_list.Manifest.{Manifest}
use golang_imageindex_list.Manifest.Layers.Panics.{digest_part-Lacks}
use golang_imageindex_list.Mirror.{Mirror}
use golang_imageindex_list.Collector.Paths.{operator_copy_dir, release_copy_dir}
use golang_imageindex_list.Collector.Fetch.{
  copy_image_to, first_operator_manifest, fetch_operator, first_release_manifest, logged_index,
  fetch_release,
}

module _ {O : Os} (manifest : Manifest O) (mirror : Mirror O) (g : GlobalOptions)
    (w w' w'' : World O) (index : OciSchema) (first : OciManifest) (others : List OciManifest)
    (listed : index.manifests ≡ first ∷ others) (no_colon : Lacks b':' first.digest) where
  -- An operator index whose first digest names sha256 and has no colon passes the check of the
  -- digest and ends in a panic, once the image is copied and its index is read.
  pub fetch_operator_panics :
      copy_image_to mirror g (operator_copy_dir g) w ≡ (returned tt, w')
      → manifest.get_image_index (operator_copy_dir g) w' ≡ (returned (some index), w'')
      → contains first.digest (codes "sha256") ≡ true
      → fetch_operator manifest mirror g w ≡ (panicked, w'')
  unfolding fetch_operator first_operator_manifest ◌>>=◌
  fetch_operator_panics copied read named =
      rw (copied, read, listed, named, digest_part-Lacks first.digest no_colon)

  -- A release index whose first digest has no colon ends in a panic: nothing checks it.
  pub fetch_release_panics :
      copy_image_to mirror g (release_copy_dir g) w ≡ (returned tt, w')
      → manifest.get_image_index (release_copy_dir g) w' ≡ (returned (some index), w'')
      → fetch_release manifest mirror g w ≡ (panicked, w'')
  unfolding fetch_release first_release_manifest logged_index ◌>>=◌
  fetch_release_panics copied read =
      rw (copied, read, listed, digest_part-Lacks first.digest no_colon)
