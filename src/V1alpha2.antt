-- ===== src/V1alpha2.antt =====
-- pkg/api/v1alpha2: the configuration of an image set.
pub mod Json
pub mod GroupVersion
pub mod ImageTypes
pub mod PlatformTypes
pub mod Associations
pub mod Include
pub mod Storage
pub mod Config
pub mod Operators
pub mod Metadata
