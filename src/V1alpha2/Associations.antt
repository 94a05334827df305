-- ===== src/V1alpha2/Associations.antt =====
-- pkg/api/v1alpha2/type_image.go: `Association`, an image with its layers or child manifests.
pub mod Laws
use golang_imageindex_list.Prelude.{
  Bytes, codes, List, [], ◌∷◌, Bool, true, false, not, ◌&&◌, is_empty, if◌then◌else◌,
}
use golang_imageindex_list.Exec.{Result, ok, err}
use golang_imageindex_list.Fmt.{sprintf}
use golang_imageindex_list.V1alpha2.ImageTypes.{ImageType}
use golang_imageindex_list.V1alpha2.ImageTypes

-- `Association`
pub record Association : Type 0 where
  pub name : Bytes
  pub path : Bytes
  pub id : Bytes
  pub tag_symlink : Bytes
  pub type : ImageType
  pub manifest_digests : List Bytes
  pub layer_digests : List Bytes

-- A message about the image of that name.
abbrev pub complaint : Bytes → Bytes → Result (Unit {0})
complaint format name = err (sprintf format (name ∷ []))

-- `Validate`
unfoldable pub validate : Association → Result (Unit {0})
validate a =
    if not (is_empty a.manifest_digests) && not (is_empty a.layer_digests)
    then complaint
        (codes "image %q: child descriptors cannot contain both manifests and image layers") a.name
    else if is_empty a.manifest_digests && is_empty a.layer_digests
    then complaint
        (codes "image %q: child descriptors must contain at least one manifest or image layer")
        a.name
    else if is_empty a.id && is_empty a.tag_symlink
    then complaint (codes "image %q: tag or ID must be set") a.name
    else ImageTypes.validate a.type
