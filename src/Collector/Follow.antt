-- ===== src/Collector/Follow.antt =====
-- How the digests of an image lead to its layers, when every document is there.
use golang_imageindex_list.Prelude.{Bytes, codes, List, [], ◌∷◌, ◌++◌, Option, some, ◌≡◌, true, ap}
use golang_imageindex_list.Strings.{contains}
use golang_imageindex_list.Exec.{Result, ok, returned, lift, ◌>>=◌}
use golang_imageindex_list.Os.{Os}
use golang_imageindex_list.World.{World, Method, info, debug, os_read}
use golang_imageindex_list.Log.Reports.{Message, logged, logged-two}
use golang_imageindex_list.Options.{GlobalOptions}
use golang_imageindex_list.Schema.Oci.{OciManifest, OciSchema}
use golang_imageindex_list.Schema.OperatorConfig.{OperatorConfigSchema}
use golang_imageindex_list.Manifest.Formats.{Formats}
use golang_imageindex_list.Manifest.Documents.{
  get_image_index, get_image_manifest, get_operator_config, index_file,
}
use golang_imageindex_list.Manifest.Layers.{digest_part, extract_layers_oci}
use golang_imageindex_list.Manifest.Service as ManifestService
use golang_imageindex_list.Mirror.{Mirror}
use golang_imageindex_list.Collector.Paths.{
  operator_copy_dir, operator_blob, operator_blobs_dir, operator_cache_dir, release_copy_dir,
  release_blob, release_blobs_dir, release_to_dir, release_manifest,
}
use golang_imageindex_list.Collector.Fetch.{
  copy_image_to, first_operator_manifest, fetch_operator, first_release_manifest, logged_index,
  fetch_release,
}

-- The file holds the document: it can be read, and is decoded to it.
pub record Holds {A : Type 0} (O : Os) (s : O.State) (decode : Bytes → Result (Option A))
    (file : Bytes) (document : A) : Type 0 where
  pub text : Bytes
  pub there : O.read_file s file ≡ ok text
  pub decoded : decode text ≡ ok (some document)

module _ {A : Type 0} {O : Os} where
  read-Holds :
      (decode : Bytes → Result (Option A)) (file : Bytes) (document : A) (w : World O)
      → Holds O w.os decode file document
      → (os_read {O = O} (λ s. O.read_file s file) >>= λ text. lift (decode text)) w
        ≡ (returned (some document), w)
  unfolding os_read ◌>>=◌
  read-Holds decode file document w h = rw (h.there, h.decoded)

-- What a copy of an image is: an index, and the image's own manifest in the file that the digest of
-- the first manifest of the index names.
pub record IsCopied (O : Os) (formats : Formats) (copy_dir : Bytes) (blob : Bytes → Bytes)
    (s : O.State) (index image : OciSchema) (part : Bytes) : Type 0 where
  pub first : OciManifest
  pub others : List OciManifest
  pub listed : index.manifests ≡ first ∷ others
  pub split : digest_part first.digest ≡ some part
  pub index_there : Holds O s formats.unmarshal_oci (copy_dir ++ codes "/" ++ index_file) index
  pub image_there : Holds O s formats.unmarshal_oci (blob part) image

abbrev pub line : Method → Bytes → Bytes → Message
line method format text = (method, (format, text ∷ []))

module _ {O : Os} (formats : Formats) (mirror : Mirror O) (g : GlobalOptions) (w now : World O)
    (index image : OciSchema) (part : Bytes) where
  -- Once the image of an operator is copied, and its documents are there, the layers of the image
  -- that its digests lead to are extracted to the cache directory, with the label that its
  -- config names; nothing else happens but two lines in the log.
  pub fetch_operator_follows :
      (config : OperatorConfigSchema) (config_part : Bytes)
      → copy_image_to mirror g (operator_copy_dir g) w ≡ (returned tt, now)
      → (c : IsCopied O formats (operator_copy_dir g) (operator_blob g) now.os index image part)
      → contains c.first.digest (codes "sha256") ≡ true
      → digest_part image.config.digest ≡ some config_part
      → Holds O now.os formats.unmarshal_operator_config (operator_blob g config_part) config
      → let label = config.config.labels.operators_operatorframework_io_index_configs_v1 in
        fetch_operator (ManifestService.service formats) mirror g w
        ≡ extract_layers_oci formats
            (operator_blobs_dir g)
            (operator_cache_dir g)
            label
            (some image)
            (logged
              (line info (codes "manifest %v") part ∷ line info (codes "label %s") label ∷ [])
              now)
  unfolding fetch_operator first_operator_manifest get_image_index get_image_manifest
      get_operator_config logged os_read ◌>>=◌
  fetch_operator_follows config config_part copied c named split config_there =
      rw
        (
          copied, c.index_there.there, c.index_there.decoded, c.listed, named, c.split,
          c.image_there.there, c.image_there.decoded, split, config_there.there,
          config_there.decoded,
        )
        (ap
          (extract_layers_oci formats (operator_blobs_dir g) (operator_cache_dir g) _ (some image))
          (logged-two (line info (codes "manifest %v") part) (line info (codes "label %s") _) now))

  -- Once the image of a release is copied, and its documents are there, the layers of the image that
  -- its digest leads to are extracted to `release_to_dir`, with the label of the release manifests;
  -- nothing else happens but two lines in the log.
  pub fetch_release_follows :
      copy_image_to mirror g (release_copy_dir g) w ≡ (returned tt, now)
      → IsCopied O formats (release_copy_dir g) (release_blob g) now.os index image part
      → fetch_release (ManifestService.service formats) mirror g w
        ≡ extract_layers_oci formats
            (release_blobs_dir g)
            (release_to_dir g)
            release_manifest
            (some image)
            (logged
              (line debug (codes "image index %v") part
                ∷ line debug (codes "manifest %v ") image.config.digest
                ∷ [])
              now)
  unfolding fetch_release first_release_manifest logged_index get_image_index get_image_manifest
      logged os_read ◌>>=◌
  fetch_release_follows copied c =
      rw
        (
          copied, c.index_there.there, c.index_there.decoded, c.listed, c.split,
          c.image_there.there, c.image_there.decoded,
        )
        (ap
          (extract_layers_oci formats (release_blobs_dir g) (release_to_dir g) release_manifest
            (some image))
          (logged-two (line debug (codes "image index %v") part)
            (line debug (codes "manifest %v ") image.config.digest) now))
