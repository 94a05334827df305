-- ===== src/Tests/Posix.antt =====
-- The file system in memory, with doubled separators as one, is a file system.
use golang_imageindex_list.Prelude.{
  Bytes, codes, List, [], ◌∷◌, ◌++◌, Option, none, some, ◌≡◌, refl, false, ◌&&◌, not, ◌==◌,
  bytes_eq, bytes_eq_refl, if◌then◌else◌, arith,
}
use golang_imageindex_list.Strings.{contains, has_prefix, trim_prefix}
use golang_imageindex_list.Exec.{ok}
use golang_imageindex_list.Os.{Os}
use golang_imageindex_list.Os.Files.{IsFileSystem}
use golang_imageindex_list.Tests.Memory.{Disk, Node, file, dir, memory, lookup, bytes_of, appended}

-- The path with each run of separators as one.
abbrev pub collapse : Bytes → Bytes
collapse [] = []
collapse (c ∷ []) = c ∷ []
collapse (c ∷ d ∷ s) =
    let rest = collapse (d ∷ s) in if c == b'/' && d == b'/' then rest else c ∷ rest

-- The entries of a directory, the oldest first.
unfoldable pub children : Bytes → Disk → List Bytes
unfolding has_prefix trim_prefix contains
children path [] = []
children path ((p, n) ∷ disk) =
    let rest = children path disk in
    let name = trim_prefix p (path ++ codes "/") in
    if has_prefix p (path ++ codes "/") && not (contains name (codes "/"))
    then rest ++ name ∷ []
    else rest

abbrev pub posix : Os
posix = record memory {
  read_file = λ s p. bytes_of (lookup (collapse p) s);
  open_file = λ s p. bytes_of (lookup (collapse p) s);
  read_dir = λ s p. ok (children (collapse p) s);
  mkdir_all = λ s p. (ok tt, (collapse p, dir) ∷ s);
  create = λ s p. (ok tt, (collapse p, file []) ∷ s);
  copy = λ s p b. (ok tt, (collapse p, appended b (lookup (collapse p) s)) ∷ s);
}

abbrev pub Apart : Bytes → Bytes → Type 0
Apart p q = bytes_eq (collapse q) (collapse p) ≡ false

collapse-slashes : (a b : Bytes) → collapse (a ++ codes "//" ++ b) ≡ collapse (a ++ codes "/" ++ b)
collapse-slashes [] b = refl
collapse-slashes (c ∷ []) b = refl
collapse-slashes (c ∷ d ∷ a) b = rw (collapse-slashes (d ∷ a) b)

appended_read :
    (n : Option Node) (a b : Bytes)
    → bytes_of n ≡ ok a
    → bytes_of (some (appended b n)) ≡ ok (a ++ b)
appended_read none a b h = absurd cc
appended_read (some (file c)) a b h = ground arith
appended_read (some dir) a b h = absurd cc

pub posix-IsFileSystem : IsFileSystem posix Apart
posix-IsFileSystem = record {
  read-create = λ s p h. rw (bytes_eq_refl (collapse p));
  read-copy =
      λ s p b h h'. rw (bytes_eq_refl (collapse p)) (appended_read (lookup (collapse p) s) [] b h);
  create_apart = λ s p q a h k. rw h k;
  copy_apart = λ s p q a b h k. rw h k;
  mkdir_apart = λ s p q a h k. rw h k;
  slashes = λ s a b content h. rw (collapse-slashes a b) h;
}
