-- ===== src/Tests.antt =====
-- Runs over a file system in memory, and the theorems at concrete data.
mod Memory
mod Values
mod Posix
mod Trusted
mod Paths
mod Extraction
mod Listings
mod Collecting
mod Command
mod Mirroring
mod ImageSets
mod Following
mod Releases
mod Flags
mod Metadata
mod Program
mod Layered
mod Repeated
mod Tree
mod Unread
mod Labels
mod Fresh
mod Served
