-- ===== src/Collector.antt =====
-- pkg/index/list-images.go: the paths of an image, and `Collect`.
pub mod Paths
pub mod Fetch
pub mod Collect
pub mod Trust
pub mod Safe
pub mod Service
pub mod Panics
pub mod Cached
pub mod Release
pub mod Keeps
pub mod Label
pub mod Unread
pub mod Branch
pub mod Policies
pub mod Layouts
pub mod Listing
pub mod Follow
pub mod Extracted
