-- ===== src/Schema.antt =====
-- pkg/api/v1alpha3/types.go: the documents that the program reads.
pub mod Release
pub mod Oci
pub mod OperatorConfig
pub mod Catalog
pub mod Packages
