-- ===== src/Manifest/Untar.antt =====
-- pkg/manifest/manifest.go: `untar`.
pub mod Filter
pub mod Frame
pub mod Contents
pub mod Safe
use golang_imageindex_list.Prelude.{
  Bytes, codes, ℕ, List, [], ◌∷◌, ◌++◌, Option, none, some, not, bytes_eq, ◌==◌, if◌then◌else◌,
}
use golang_imageindex_list.Exec.{Exec, pure, fail, lift, wrapped, ◌>>=◌, ◌>>◌}
use golang_imageindex_list.Fmt.{sprintf, show_byte}
use golang_imageindex_list.Strings.{contains, trim_prefix, trim_suffix}
use golang_imageindex_list.Os.{Os}
use golang_imageindex_list.World.{World, os_call, print}
use golang_imageindex_list.Manifest.Formats.{Formats, Header, TarItem, entry, broken}

-- The label without a separator at its ends.
unfoldable pub trim_label : Bytes → Bytes
unfolding trim_prefix trim_suffix
trim_label label = trim_prefix (trim_suffix label (codes "/")) (codes "/")

-- `tar.TypeDir` and `tar.TypeReg`
abbrev pub type_dir : ℕ
type_dir = b'5'

abbrev pub type_reg : ℕ
type_reg = b'0'

-- Where an entry goes.
abbrev pub target : Bytes → Header → Bytes
target path header = path ++ codes "/" ++ header.name

unfoldable pub wrap : Bytes → Bytes → Bytes
wrap format e = sprintf format (e ∷ [])

module _ {O : Os} where
  -- The error that cuts the content short, if there is one.
  unfoldable pub copy_problem : Option Bytes → Exec (World O) (Unit {0})
  copy_problem none = pure tt
  copy_problem (some e) = fail e

  -- `io.Copy`: what can be read is written before a reading error is met.
  unfoldable pub copy_content : Bytes → Bytes → Option Bytes → Exec (World O) (Unit {0})
  copy_content file content problem = do os_call (λ s. O.copy s file content); copy_problem problem

  unfoldable pub make_dir : Bytes → Header → Exec (World O) (Unit {0})
  make_dir path header =
      if not (bytes_eq header.name (codes "./"))
      then wrapped (wrap (codes "untar: Mkdir() failed: %v"))
          (os_call (λ s. O.mkdir_all s (target path header)))
      else pure tt

  unfoldable pub make_file : Bytes → Header → Bytes → Option Bytes → Exec (World O) (Unit {0})
  make_file path header content problem = do
    wrapped (wrap (codes "untar: Create() failed: %v"))
        (os_call (λ s. O.create s (target path header)))
    wrapped (wrap (codes "untar: Copy() failed: %v"))
        (copy_content (target path header) content problem)

  -- The `switch` on the kind of an entry. The kind is printed as a number, and the newline of the line is left out.
  unfoldable pub extract_entry : Bytes → Header → Bytes → Option Bytes → Exec (World O) (Unit {0})
  extract_entry path header content problem =
      if header.typeflag == type_dir
      then make_dir path header
      else if header.typeflag == type_reg
      then make_file path header content problem
      else print (
          sprintf (codes "WARNING : untar: unknown type: %v in %s")
            (show_byte header.typeflag ∷ header.name ∷ []))

  -- The loop over the archive.
  unfoldable pub untar_loop : Bytes → Bytes → List TarItem → Exec (World O) (Unit {0})
  untar_loop path cfg_dir_name [] = pure tt
  untar_loop path cfg_dir_name (broken e ∷ items) =
      fail (sprintf (codes "untar: Next() failed: %s") (e ∷ []))
  untar_loop path cfg_dir_name (entry header content problem ∷ items) = do
    if contains header.name cfg_dir_name then extract_entry path header content problem else pure tt
    untar_loop path cfg_dir_name items

  -- `untar`
  unfoldable pub untar : Formats → Bytes → Bytes → Bytes → Exec (World O) (Unit {0})
  untar formats gzip_stream path cfg_dir_name = do
    stream ←
        wrapped (wrap (codes "untar: gzipStream - %w")) (lift (formats.gzip_reader gzip_stream))
    untar_loop path (trim_label cfg_dir_name) (formats.tar_items stream)
