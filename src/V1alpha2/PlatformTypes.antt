-- ===== src/V1alpha2/PlatformTypes.antt =====
-- pkg/api/v1alpha2/type_platform.go: `PlatformType`, a Go `int` of which two values have a name.
pub mod Laws
use golang_imageindex_list.Prelude.{Bytes, codes, List, [], ◌∷◌, none, some}
use golang_imageindex_list.Prelude.Int.{ℤ, pos}
use golang_imageindex_list.Exec.{Result, ok, err}
use golang_imageindex_list.V1alpha2.Json.{Json}
use golang_imageindex_list.V1alpha2.ImageTypes.{string_at, type_at, or_empty, or_zero, behind}

-- `PlatformType`
abbrev pub PlatformType : Type 0
PlatformType = ℤ

abbrev pub type_ocp : PlatformType
type_ocp = pos 0

abbrev pub type_okd : PlatformType
type_okd = pos 1

-- `DefaultPlatformArchitecture`
abbrev pub default_platform_architecture : Bytes
default_platform_architecture = codes "amd64"

-- `platformTypeStrings`
abbrev pub platform_type_strings : List (PlatformType × Bytes)
platform_type_strings = (type_ocp, codes "ocp") ∷ (type_okd, codes "okd") ∷ []

-- `platformStringsType`
abbrev pub platform_strings_type : List (Bytes × PlatformType)
platform_strings_type = (codes "ocp", type_ocp) ∷ (codes "okd", type_okd) ∷ []

-- `String`
unfoldable pub string : PlatformType → Bytes
unfolding string_at
string pt = or_empty (string_at pt platform_type_strings)

-- `validate`
unfoldable pub validate : PlatformType → Result (Unit {0})
unfolding string_at
validate pt = elim (string_at pt platform_type_strings) [
  | some _ ↦ ok tt
  | none ↦ err (codes "unknown platform type")
]

-- `MarshalJSON`
unfoldable pub marshal_json : Json → PlatformType → Result Bytes
unfolding validate string
marshal_json json pt = behind (validate pt) (json.marshal (string pt))

abbrev pub looked_up : Result Bytes → Result PlatformType
looked_up (ok j) = ok (or_zero (type_at j platform_strings_type))
looked_up (err e) = err e

-- `UnmarshalJSON`: the value that is assigned, or an error.
unfoldable pub unmarshal_json : Json → Bytes → Result PlatformType
unfolding type_at
unmarshal_json json b = looked_up (json.unmarshal b)
