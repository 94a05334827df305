-- ===== src/V1alpha2/ImageTypes.antt =====
-- pkg/api/v1alpha2/type_image.go: `ImageType`, a Go `int` of which eight values have a name.
pub mod Laws
use golang_imageindex_list.Prelude.{
  ℕ, zero, suc, Bytes, codes, List, [], ◌∷◌, ◌++◌, Option, none, some, Bool, bytes_eq,
  if◌then◌else◌,
}
use golang_imageindex_list.Prelude.Int.{ℤ, pos, int_eq}
use golang_imageindex_list.Exec.{Result, ok, err}
use golang_imageindex_list.Fmt.{sprintf}
use golang_imageindex_list.V1alpha2.Json.{Json}

-- `ImageType`
abbrev pub ImageType : Type 0
ImageType = ℤ

abbrev pub type_invalid : ImageType
type_invalid = pos 0

abbrev pub type_ocp_release : ImageType
type_ocp_release = pos 1

abbrev pub type_ocp_release_content : ImageType
type_ocp_release_content = pos 2

abbrev pub type_cincinnati_graph : ImageType
type_cincinnati_graph = pos 3

abbrev pub type_operator_catalog : ImageType
type_operator_catalog = pos 4

abbrev pub type_operator_bundle : ImageType
type_operator_bundle = pos 5

abbrev pub type_operator_related_image : ImageType
type_operator_related_image = pos 6

abbrev pub type_generic : ImageType
type_generic = pos 7

-- `imageTypeStrings`
abbrev pub image_type_strings : List (ImageType × Bytes)
image_type_strings =
    (type_ocp_release_content, codes "ocpReleaseContent")
    ∷ (type_cincinnati_graph, codes "cincinnatiGraph")
    ∷ (type_ocp_release, codes "ocpRelease")
    ∷ (type_operator_catalog, codes "operatorCatalog")
    ∷ (type_operator_bundle, codes "operatorBundle")
    ∷ (type_operator_related_image, codes "operatorRelatedImage")
    ∷ (type_generic, codes "generic")
    ∷ []

-- `imageStringsType`
abbrev pub image_strings_type : List (Bytes × ImageType)
image_strings_type =
    (codes "ocpReleaseContent", type_ocp_release_content)
    ∷ (codes "cincinnatiGraph", type_cincinnati_graph)
    ∷ (codes "ocpRelease", type_ocp_release)
    ∷ (codes "operatorCatalog", type_operator_catalog)
    ∷ (codes "operatorBundle", type_operator_bundle)
    ∷ (codes "operatorRelatedImage", type_operator_related_image)
    ∷ (codes "generic", type_generic)
    ∷ []

-- `m[k]` over the two tables, with its second value.
unfoldable pub string_at : ImageType → List (ImageType × Bytes) → Option Bytes
unfolding int_eq
string_at it [] = none
string_at it ((k, v) ∷ rest) = if int_eq it k then some v else string_at it rest

unfoldable pub type_at : Bytes → List (Bytes × ImageType) → Option ImageType
unfolding bytes_eq
type_at s [] = none
type_at s ((k, v) ∷ rest) = if bytes_eq s k then some v else type_at s rest

-- `m[k]` with the zero value of a missing key.
abbrev pub or_empty : Option Bytes → Bytes
or_empty none = []
or_empty (some s) = s

abbrev pub or_zero : Option ImageType → ImageType
or_zero none = pos 0
or_zero (some it) = it

-- `String`
unfoldable pub string : ImageType → Bytes
unfolding string_at
string it = or_empty (string_at it image_type_strings)

-- `validate`. The `%v` of its last message calls `String`.
unfoldable pub check_found : ImageType → Option Bytes → Result (Unit {0})
unfolding string int_eq
check_found it (some _) = ok tt
check_found it none =
    if int_eq it type_invalid
    then err (codes "must set image type")
    else err (sprintf (codes "unknown image type %v") (string it ∷ []))

unfoldable pub validate : ImageType → Result (Unit {0})
unfolding check_found string_at
validate it = check_found it (string_at it image_type_strings)

-- The value behind a check.
abbrev pub behind {ℓ} : {A : Type ℓ} → Result (Unit {0}) → A → Result A
behind (ok _) a = ok a
behind (err e) a = err e

-- `MarshalJSON`
unfoldable pub marshal_json : Json → ImageType → Result Bytes
unfolding validate string
marshal_json json it = behind (validate it) (json.marshal (string it))

abbrev pub looked_up : Result Bytes → Result ImageType
looked_up (ok j) = ok (or_zero (type_at j image_strings_type))
looked_up (err e) = err e

-- `UnmarshalJSON`: the value that is assigned, or an error.
unfoldable pub unmarshal_json : Json → Bytes → Result ImageType
unfolding type_at
unmarshal_json json b = looked_up (json.unmarshal b)
