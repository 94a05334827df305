-- ===== src/V1alpha2/Storage.antt =====
-- pkg/api/v1alpha2/types_storage_config.go: where metadata is stored. A pointer is an `Option`.
use golang_imageindex_list.Prelude.{Bytes, Bool, true, false, Option, none, some}

-- `RegistryConfig`
pub record RegistryConfig : Type 0 where
  pub image_url : Bytes
  pub skip_tls : Bool

-- `LocalConfig`
pub record LocalConfig : Type 0 where
  pub path : Bytes

-- `StorageConfig`
pub record StorageConfig : Type 0 where
  pub registry : Option RegistryConfig
  pub local : Option LocalConfig

-- `IsSet`
unfoldable pub is_set : StorageConfig → Bool
is_set s = elim s.registry [ some _ ↦ true | none ↦ elim s.local [ some _ ↦ true | none ↦ false ] ]
