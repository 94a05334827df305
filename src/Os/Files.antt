-- ===== src/Os/Files.antt =====
-- What the program relies on of files that are written and read back.
use golang_imageindex_list.Prelude.{Bytes, codes, [], ◌++◌, ◌≡◌}
use golang_imageindex_list.Exec.{ok}
use golang_imageindex_list.Os.{Os}

-- The documented behaviour of `os.Create`, `io.Copy` and `os.MkdirAll`, where `Apart p q` says that
-- the paths name two files. A write at one of them does not change what is read of the other.
pub record IsFileSystem (O : Os) (Apart : Bytes → Bytes → Type 0) : Type 0 where
  pub read-create :
      (s : O.State) (p : Bytes) → (O.create s p).0 ≡ ok tt → O.read_file (O.create s p).1 p ≡ ok []
  -- What is copied to an empty file is what the file holds.
  pub read-copy :
      (s : O.State) (p content : Bytes)
      → O.read_file s p ≡ ok []
      → (O.copy s p content).0 ≡ ok tt
      → O.read_file (O.copy s p content).1 p ≡ ok content
  pub create_apart :
      (s : O.State) (p q a : Bytes)
      → Apart p q
      → O.read_file s q ≡ ok a
      → O.read_file (O.create s p).1 q ≡ ok a
  pub copy_apart :
      (s : O.State) (p q a b : Bytes)
      → Apart p q
      → O.read_file s q ≡ ok a
      → O.read_file (O.copy s p b).1 q ≡ ok a
  pub mkdir_apart :
      (s : O.State) (p q a : Bytes)
      → Apart p q
      → O.read_file s q ≡ ok a
      → O.read_file (O.mkdir_all s p).1 q ≡ ok a
  -- A doubled separator is one separator: the same file is read.
  pub slashes :
      (s : O.State) (a b content : Bytes)
      → O.read_file s (a ++ codes "/" ++ b) ≡ ok content
      → O.read_file s (a ++ codes "//" ++ b) ≡ ok content
