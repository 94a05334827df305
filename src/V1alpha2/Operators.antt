-- ===== src/V1alpha2/Operators.antt =====
-- pkg/api/v1alpha2/types_config.go: the methods of `Operator`.
pub mod Laws
use golang_imageindex_list.Prelude.{
  Bytes, codes, [], ◌∷◌, Option, none, some, Bool, not, ◌&&◌, is_empty, if◌then◌else◌,
}
use golang_imageindex_list.Exec.{Result, ok, err}
use golang_imageindex_list.Fmt.{sprintf}
use golang_imageindex_list.Strings.{has_prefix, trim_prefix}
use golang_imageindex_list.V1alpha2.Config.{Operator}

-- The fields of `DockerImageReference`.
pub record Reference : Type 0 where
  pub registry : Bytes
  pub space : Bytes
  pub name : Bytes
  pub tag : Bytes
  pub id : Bytes

-- The package `reference` of another project, as parameters.
pub record References : Type 0 where
  -- `Parse`: a reference, and an error or none.
  pub parse : Bytes → Reference × Option Bytes
  -- `Exact`
  pub exact : Reference → Bytes
  -- How `%s` shows a reference.
  pub shown : Reference → Bytes

-- `IsHeadsOnly`
unfoldable pub is_heads_only : Operator → Bool
is_heads_only o = not o.full

-- `IsFBCOCI`
unfoldable pub is_fbc_oci : Operator → Bool
unfolding has_prefix
is_fbc_oci o = has_prefix o.catalog (codes "oci:")

-- The catalog without what marks a path.
unfoldable pub catalog_name : Operator → Bytes
unfolding is_fbc_oci trim_prefix
catalog_name o =
    if is_fbc_oci o
    then trim_prefix (trim_prefix (trim_prefix o.catalog (codes "oci:")) (codes "//")) (codes "/")
    else o.catalog

-- The target's name and tag in place of those of the catalog, where they are set.
unfoldable pub retarget : Operator → Reference → Reference
retarget o ref =
    let named = if is_empty o.target_name then ref else record ref { name = o.target_name } in
    if is_empty o.target_tag then named else record named { id = []; tag = o.target_tag }

-- `GetUniqueName`
unfoldable pub get_unique_name : References → Operator → Result Bytes
unfolding catalog_name retarget
get_unique_name lib o =
    if is_empty o.target_name && is_empty o.target_tag
    then ok (catalog_name o)
    else let (ref, failure) = lib.parse (catalog_name o) in
      elim failure [
        | some e ↦
            err (sprintf (codes "error parsing source catalog %s: %v") (lib.shown ref ∷ e ∷ []))
        | none ↦ ok (lib.exact (retarget o ref))
      ]
