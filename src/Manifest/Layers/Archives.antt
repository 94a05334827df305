-- ===== src/Manifest/Layers/Archives.antt =====
-- The layers of an image: their blobs, the items of their archives, and the files of the image.
use golang_imageindex_list.Prelude.{Bytes, codes, List, ◌∷◌, ◌++◌, some, ◌≡◌, Among}
use golang_imageindex_list.Exec.{ok}
use golang_imageindex_list.Os.{Os}
use golang_imageindex_list.Schema.Oci.{OciManifest}
use golang_imageindex_list.Manifest.Formats.{Formats, Header, TarItem}
use golang_imageindex_list.Manifest.Untar.{target}
use golang_imageindex_list.Manifest.Untar.Frame.{KeptAt, Targets}
use golang_imageindex_list.Manifest.Untar.Contents.{HoldsFile}
use golang_imageindex_list.Manifest.Layers.{digest_part}

module _ (O : Os) (formats : Formats) (from_path : Bytes) (start : O.State) where
  -- The blob of the layer is there, and its archive has the items.
  pub record IsArchive (blob : OciManifest) (items : List TarItem) : Type 0 where
    pub part : Bytes
    pub gz : Bytes
    pub stream : Bytes
    pub split : digest_part blob.digest ≡ some part
    pub there : O.open_file start (from_path ++ codes "/" ++ part) ≡ ok gz
    pub unzipped : formats.gzip_reader gz ≡ ok stream
    pub read : items ≡ formats.tar_items stream

  -- The blobs of the layers are as at the start.
  abbrev pub SameBlobs : List OciManifest → O.State → Type 0
  SameBlobs layers s =
      (blob : OciManifest)
      → Among blob layers
      → (part : Bytes) → digest_part blob.digest ≡ some part
      → O.open_file s (from_path ++ codes "/" ++ part)
        ≡ O.open_file start (from_path ++ codes "/" ++ part)

  module _ (Q : Bytes → Type 0) (path text : Bytes) where
    -- Every path that a matching entry of these layers goes to has the property.
    abbrev pub LayerTargets : List OciManifest → Type 0
    LayerTargets layers =
        (blob : OciManifest)
        → Among blob layers
        → (items : List TarItem) → IsArchive blob items
        → Targets Q path text items

  -- A file of an image: one of the archive of a layer, which no later layer overwrites. The entries
  -- of no layer overwrite a blob.
  pub record ImageHolds (Apart : Bytes → Bytes → Type 0) (path text : Bytes)
      (layers : List OciManifest) (h : Header) (content : Bytes) : Type 0 where
    pub before : List OciManifest
    pub layer : OciManifest
    pub later : List OciManifest
    pub order : layers ≡ before ++ layer ∷ later
    pub items : List TarItem
    pub archive : IsArchive layer items
    pub file : HoldsFile Apart path text items h content
    pub apart : LayerTargets (λ p. Apart p (target path h)) path text later
    pub blobs : LayerTargets (KeptAt O (SameBlobs layers)) path text layers
