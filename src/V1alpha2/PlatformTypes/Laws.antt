-- ===== src/V1alpha2/PlatformTypes/Laws.antt =====
-- What is read as a platform type.
use golang_imageindex_list.Prelude.{
  Bytes, codes, ◌≡◌, refl, true, false, bytes_eq, bytes_eq_sound, Bool-cases, inl, inr,
  if◌then◌else◌, sym,
}
use mathlib.Core.Path.{subst}
use golang_imageindex_list.Exec.{ok}
use golang_imageindex_list.V1alpha2.Json.{Json}
use golang_imageindex_list.V1alpha2.ImageTypes.{type_at}
use golang_imageindex_list.V1alpha2.PlatformTypes.{PlatformType, type_ocp, type_okd, unmarshal_json}

-- The type that a name stands for: every name but `okd` stands for the first one.
abbrev pub named_platform : Bytes → PlatformType
named_platform name = if bytes_eq name (codes "okd") then type_okd else type_ocp

not_okd : (name : Bytes) → bytes_eq name (codes "ocp") ≡ true → bytes_eq name (codes "okd") ≡ false
unfolding bytes_eq
not_okd name h =
    subst (λ s. bytes_eq s (codes "okd") ≡ false) (sym (bytes_eq_sound name (codes "ocp") h)) refl

-- A JSON text that holds a name is read without an error as OKD, if the name is `okd`, and as OCP
-- otherwise, also if the name is that of no platform.
pub unmarshal_json_named :
    (json : Json) (text name : Bytes)
    → json.unmarshal text ≡ ok name
    → unmarshal_json json text ≡ ok (named_platform name)
unfolding unmarshal_json type_at
unmarshal_json_named json text name h = elim (Bool-cases (bytes_eq name (codes "ocp"))) [
  | inl is_ocp ↦ rw (h, is_ocp, not_okd name is_ocp)
  | inr other ↦ elim (Bool-cases (bytes_eq name (codes "okd"))) [
    | inl is_okd ↦ rw (h, other, is_okd)
    | inr neither ↦ rw (h, other, neither)
  ]
]
