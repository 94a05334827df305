-- ===== src/Mirror.antt =====
-- pkg/mirror/mirror.go and unshare_linux.go: the interface of the component, and what it needs of
-- the image libraries, which are not part of the program.
pub mod Images
pub mod Copy
pub mod Laws
pub mod Policies
pub mod Safe
pub mod Keeps
pub mod Unread
use golang_imageindex_list.Prelude.{Bytes, codes}
use golang_imageindex_list.Exec.{Exec}
use golang_imageindex_list.Os.{Os}
use golang_imageindex_list.World.{World}

-- `mirrorToDisk`, a mode that nothing reads.
abbrev mirror_to_disk : Bytes
mirror_to_disk = codes "mirrorToDisk"

-- `diskToMirror`, another one.
abbrev disk_to_mirror : Bytes
disk_to_mirror = codes "diskToMirror"

-- `MirrorInterface`. The options are those of the state.
pub record Mirror (O : Os) : Type 0 where
  pub run : Bytes → Bytes → Bytes → Exec (World O) (Unit {0})
