-- ===== src/V1alpha2/GroupVersion.antt =====
-- pkg/api/v1alpha2/register.go: the group and the version of the configuration, and the types of
-- k8s.io/apimachinery that it is written with, whose functions are a parameter.
use golang_imageindex_list.Prelude.{Bytes, codes, ◌≡◌}

-- `schema.GroupVersion`
pub record SchemaGroupVersion : Type 0 where
  pub group : Bytes
  pub version : Bytes

-- `metav1.TypeMeta`
pub record TypeMeta : Type 0 where
  pub kind : Bytes
  pub api_version : Bytes

-- The functions of k8s.io/apimachinery over a type `Gvk` of group, version and kind.
pub record Meta : Type 1 where
  pub Gvk : Type 0
  -- `GroupVersion.String`
  pub group_version_string : SchemaGroupVersion → Bytes
  -- `GroupVersion.WithKind`
  pub with_kind : SchemaGroupVersion → Bytes → Gvk
  -- `GroupVersionKind.String`
  pub gvk_string : Gvk → Bytes
  -- `TypeMeta.SetGroupVersionKind`: the value that its receiver has afterwards.
  pub set_group_version_kind : Gvk → TypeMeta → TypeMeta

-- Setting the group, version and kind overwrites both fields, with the texts of the version and of
-- the kind.
pub record SetsBoth (meta : Meta) : Type 0 where
  pub set_both :
      (gv : SchemaGroupVersion) (kind : Bytes) (before : TypeMeta)
      → meta.set_group_version_kind (meta.with_kind gv kind) before
        ≡ record { kind = kind; api_version = meta.group_version_string gv }

abbrev pub version : Bytes
version = codes "v1alpha2"

abbrev pub group : Bytes
group = codes "mirror.openshift.io"

-- `GroupVersion`
abbrev pub group_version : SchemaGroupVersion
group_version = record { group = group; version = version }
