-- ===== src/Collector/Layouts.antt =====
-- A copied image as an OCI image layout, and how the collector follows it.
use golang_imageindex_list.Prelude.{
  Bytes, codes, List, [], ◌∷◌, ◌++◌, some, ◌≡◌, ◌∙◌, true, ap, sym, append_assoc,
}
use mathlib.Core.Path.{subst}
use golang_imageindex_list.Strings.{contains, has_prefix, split}
use golang_imageindex_list.Strings.Splitting.{Lacks, split-Lacks}
use golang_imageindex_list.Strings.Searching.{has_prefix-nil}
use golang_imageindex_list.Exec.{returned}
use golang_imageindex_list.Os.{Os}
use golang_imageindex_list.World.{World, info, debug}
use golang_imageindex_list.Log.Reports.{logged}
use golang_imageindex_list.Options.{GlobalOptions}
use golang_imageindex_list.Schema.Oci.{OciManifest, OciSchema}
use golang_imageindex_list.Schema.OperatorConfig.{OperatorConfigSchema}
use golang_imageindex_list.Manifest.Formats.{Formats}
use golang_imageindex_list.Manifest.Documents.{index_file}
use golang_imageindex_list.Manifest.Layers.{digest_part, extract_layers_oci}
use golang_imageindex_list.Manifest.Service as ManifestService
use golang_imageindex_list.Mirror.{Mirror}
use golang_imageindex_list.Collector.Paths.{
  image_index_dir, operator_copy_dir, operator_blob, operator_blobs_dir, operator_cache_dir,
  release_copy_dir, release_blob, release_blobs_dir, release_to_dir, release_manifest,
}
use golang_imageindex_list.Collector.Paths.Layout.{blobs_in_copy_dir}
use golang_imageindex_list.Collector.Fetch.{copy_image_to, fetch_operator, fetch_release}
use golang_imageindex_list.Collector.Follow.{
  Holds, IsCopied, line, fetch_operator_follows, fetch_release_follows,
}

-- A digest of the OCI image specification, by its hexadecimal digits.
abbrev pub sha256 : Bytes → Bytes
sha256 hex = codes "sha256" ++ b':' ∷ hex

-- The file of a blob in an OCI image layout, by the digits of its digest.
abbrev pub layout_blob : Bytes → Bytes → Bytes
layout_blob dir hex = dir ++ (codes "/blobs/sha256/" ++ hex)

-- The directory holds an OCI image layout with this index, whose first manifest is that of this
-- image.
pub record IsLayout (O : Os) (formats : Formats) (dir : Bytes) (s : O.State)
    (index image : OciSchema) (hex : Bytes) : Type 0 where
  pub first : OciManifest
  pub others : List OciManifest
  pub listed : index.manifests ≡ first ∷ others
  pub digest : first.digest ≡ sha256 hex
  pub digits : Lacks b':' hex
  pub index_there : Holds O s formats.unmarshal_oci (dir ++ codes "/index.json") index
  pub image_there : Holds O s formats.unmarshal_oci (layout_blob dir hex) image

digest_part-sha256 : (hex : Bytes) → Lacks b':' hex → digest_part (sha256 hex) ≡ some hex
unfolding split
digest_part-sha256 hex digits = rw (split-Lacks b':' hex digits)

contains-sha256 : (hex : Bytes) → contains (sha256 hex) (codes "sha256") ≡ true
unfolding contains has_prefix
contains-sha256 hex = rw (has_prefix-nil (b':' ∷ hex))

index_path : (dir : Bytes) → dir ++ codes "/" ++ index_file ≡ dir ++ codes "/index.json"
index_path dir = simp append_assoc

unfoldable layout_copied :
    {O : Os} (formats : Formats) (dir : Bytes) (blob : Bytes → Bytes) (s : O.State)
    (index image : OciSchema) (hex : Bytes)
    → ((part : Bytes) → blob part ≡ layout_blob dir part)
    → IsLayout O formats dir s index image hex
    → IsCopied O formats dir blob s index image hex
layout_copied {O} formats dir blob s index image hex same l = record {
  first = l.first;
  others = l.others;
  listed = l.listed;
  split = ap digest_part l.digest ∙ digest_part-sha256 hex l.digits;
  index_there =
      subst (λ file. Holds O s formats.unmarshal_oci file index) (sym (index_path dir))
        l.index_there;
  image_there =
      subst (λ file. Holds O s formats.unmarshal_oci file image) (sym (same hex)) l.image_there;
}

module _ (g : GlobalOptions) where
  operator_dirs :
      (operator_blobs_dir g ≡ operator_copy_dir g ++ codes "/blobs/sha256")
      × (operator_cache_dir g ≡ g.dir ++ codes "/hold-operators/" ++ image_index_dir g.reference)
  unfolding operator_blobs_dir operator_copy_dir operator_cache_dir
  operator_dirs = (simp append_assoc, simp append_assoc)

  release_dirs :
      (release_blobs_dir g ≡ release_copy_dir g ++ codes "/blobs/sha256")
      × (release_to_dir g ≡ g.dir ++ codes "hold-releases" ++ image_index_dir g.reference)
  unfolding release_blobs_dir release_copy_dir release_to_dir
  release_dirs = (simp append_assoc, simp append_assoc)

module _ {O : Os} (formats : Formats) (mirror : Mirror O) (g : GlobalOptions) (w now : World O)
    (index image : OciSchema) (hex : Bytes) where
  -- If the copy of an operator image leaves an OCI image layout in its directory, with sha256
  -- digests and a blob for the config of the image, then the fetch goes on as `ExtractLayersOCI`
  -- does on the image that the layout names first: from the blobs of this layout, to the directory
  -- of the image below `hold-operators`, with the label of its config. Nothing else happens after
  -- the copy but two lines in the log.
  pub operator_layout_extracted :
      (config : OperatorConfigSchema) (config_hex : Bytes)
      → copy_image_to mirror g (operator_copy_dir g) w ≡ (returned tt, now)
      → IsLayout O formats (operator_copy_dir g) now.os index image hex
      → image.config.digest ≡ sha256 config_hex
      → Lacks b':' config_hex
      → Holds O now.os formats.unmarshal_operator_config
          (layout_blob (operator_copy_dir g) config_hex)
          config
      → let label = config.config.labels.operators_operatorframework_io_index_configs_v1 in
        fetch_operator (ManifestService.service formats) mirror g w
        ≡ extract_layers_oci formats
            (operator_copy_dir g ++ codes "/blobs/sha256")
            (g.dir ++ codes "/hold-operators/" ++ image_index_dir g.reference)
            label
            (some image)
            (logged
              (line info (codes "manifest %v") hex ∷ line info (codes "label %s") label ∷ [])
              now)
  unfolding layout_copied
  operator_layout_extracted config config_hex copied l digest digits config_there =
      let label = config.config.labels.operators_operatorframework_io_index_configs_v1 in
      let ends =
        logged (line info (codes "manifest %v") hex ∷ line info (codes "label %s") label ∷ [])
          now in
      fetch_operator_follows formats mirror g w now index image hex config config_hex copied
        (layout_copied formats _ (operator_blob g) now.os index image hex
          (λ part. (blobs_in_copy_dir g part).0) l)
        (ap (λ d. contains d (codes "sha256")) l.digest ∙ contains-sha256 hex)
        (ap digest_part digest ∙ digest_part-sha256 config_hex digits)
        (subst (λ file. Holds O now.os formats.unmarshal_operator_config file config)
          (sym (blobs_in_copy_dir g config_hex).0) config_there)
      ∙ (ap (λ dir. extract_layers_oci formats dir (operator_cache_dir g) label (some image) ends)
            (operator_dirs g).0
          ∙ ap
              (λ dir.
                extract_layers_oci formats (operator_copy_dir g ++ codes "/blobs/sha256") dir label
                  (some image) ends)
              (operator_dirs g).1)

  -- If the copy of a release image leaves an OCI image layout in its directory, with sha256
  -- digests, then the fetch goes on as `ExtractLayersOCI` does on the image that the layout names
  -- first: from the blobs of this layout, to the directory whose name is the working directory's
  -- with `hold-releases` and the image's appended, without a separator, with the label
  -- `release-manifests`. Nothing else happens after the copy but two lines in the log.
  pub release_layout_extracted :
      copy_image_to mirror g (release_copy_dir g) w ≡ (returned tt, now)
      → IsLayout O formats (release_copy_dir g) now.os index image hex
      → fetch_release (ManifestService.service formats) mirror g w
        ≡ extract_layers_oci formats
            (release_copy_dir g ++ codes "/blobs/sha256")
            (g.dir ++ codes "hold-releases" ++ image_index_dir g.reference)
            (codes "release-manifests")
            (some image)
            (logged
              (line debug (codes "image index %v") hex
                ∷ line debug (codes "manifest %v ") image.config.digest
                ∷ [])
              now)
  release_layout_extracted copied l =
      let ends =
        logged
          (line debug (codes "image index %v") hex
            ∷ line debug (codes "manifest %v ") image.config.digest
            ∷ [])
          now in
      fetch_release_follows formats mirror g w now index image hex copied (
        layout_copied formats _ (release_blob g) now.os index image hex
          (λ part. (blobs_in_copy_dir g part).2) l)
      ∙ (ap
            (λ dir.
              extract_layers_oci formats dir (release_to_dir g) release_manifest (some image) ends)
            (release_dirs g).0
          ∙ ap
              (λ dir.
                extract_layers_oci formats (release_copy_dir g ++ codes "/blobs/sha256") dir
                  release_manifest (some image) ends)
              (release_dirs g).1)
