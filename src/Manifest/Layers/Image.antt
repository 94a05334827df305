-- ===== src/Manifest/Layers/Image.antt =====
-- `ExtractLayersOCI` and the files of an image.
use mathlib.Core.Path.{subst}
use golang_imageindex_list.Prelude.{Bytes, List, some, ◌++◌, ◌≡◌, refl, sym, true, Among}
use golang_imageindex_list.Exec.{Exec, ok, returned, deref, for_each, ◌>>=◌}
use golang_imageindex_list.Os.{Os}
use golang_imageindex_list.Os.Files.{IsFileSystem}
use golang_imageindex_list.World.{World}
use golang_imageindex_list.Schema.Oci.{OciManifest, OciSchema}
use golang_imageindex_list.Manifest.Formats.{Formats, Header}
use golang_imageindex_list.Manifest.Untar.{target, trim_label}
use golang_imageindex_list.Manifest.Layers.{
  is_missing, extract_layer, extract_layers, extract_layers_oci,
}
use golang_imageindex_list.Manifest.Layers.Archives.{ImageHolds}
use golang_imageindex_list.Manifest.Layers.Contents.{loop_contents}

module _ {O : Os} {Apart : Bytes → Bytes → Type 0} (files : IsFileSystem O Apart)
    (formats : Formats) (from_path to_path label : Bytes) (h : Header) (content : Bytes) where
  layers_contents :
      (layers : List OciManifest) (w : World O)
      → ImageHolds O formats from_path w.os Apart to_path (trim_label label) layers h content
      → (for_each layers (extract_layer formats from_path to_path label) w).0 ≡ returned tt
      → O.read_file
          (for_each layers (extract_layer formats from_path to_path label) w).1.os
          (target to_path h)
        ≡ ok content
  layers_contents layers w holds done =
      let loop : List OciManifest → Exec (World O) (Unit {0}) =
        λ layers. for_each layers (extract_layer formats from_path to_path label) in
      subst (λ l. O.read_file (loop l w).1.os (target to_path h) ≡ ok content) (sym holds.order)
        (loop_contents formats from_path to_path label w.os layers files h content holds.blobs
          holds.before holds.layer holds.later holds.items
          (λ b i. subst (Among b) (sym holds.order) i) holds.archive holds.file holds.apart w
          (λ blob among part split. refl)
          (subst (λ l. (loop l w).0 ≡ returned tt) holds.order done))

  -- If `ExtractLayersOCI` succeeds where the artifact is missing, then every file of the image can be
  -- read back below `to_path` with its content: a regular entry that is whole, in the archive of a
  -- layer, whose name contains the label without its separators, and that no later entry, of this
  -- layer or of a later one, overwrites. It is required that no entry of a layer overwrites the blob
  -- of one.
  pub extract_layers_oci-contents :
      (oci : OciSchema) (w : World O)
      → ImageHolds O formats from_path w.os Apart to_path (trim_label label) oci.layers h content
      → is_missing (O.stat w.os (to_path ++ label)) ≡ true
      → (extract_layers_oci formats from_path to_path label (some oci) w).0 ≡ returned tt
      → O.read_file
          (extract_layers_oci formats from_path to_path label (some oci) w).1.os
          (target to_path h)
        ≡ ok content
  unfolding extract_layers_oci extract_layers deref ◌>>=◌
  extract_layers_oci-contents oci w holds absent done =
      rw absent (layers_contents oci.layers w holds (rw absent at done))
