-- ===== src/Manifest/Layers.antt =====
-- pkg/manifest/manifest.go: `ExtractLayersOCI`.
pub mod Laws
pub mod Panics
pub mod Archives
pub mod Contents
pub mod Kept
pub mod Image
use golang_imageindex_list.Prelude.{
  Bytes, codes, Bool, true, false, [], ◌∷◌, ◌++◌, Option, get_elem?, if◌then◌else◌,
}
use golang_imageindex_list.Exec.{Exec, fail, deref, for_each, ◌>>=◌}
use golang_imageindex_list.Fmt.{sprintf}
use golang_imageindex_list.Strings.{contains, split}
use golang_imageindex_list.Os.{Os, Stat, present, missing, unreadable}
use golang_imageindex_list.World.{World, os_read}
use golang_imageindex_list.Log.{log_info}
use golang_imageindex_list.Schema.Oci.{OciManifest, OciSchema}
use golang_imageindex_list.Manifest.Formats.{Formats}
use golang_imageindex_list.Manifest.Untar.{untar}

-- `errors.Is(err, os.ErrNotExist)` behind `os.Stat`
abbrev pub is_missing : Stat → Bool
is_missing missing = true
is_missing present = false
is_missing (unreadable e) = false

-- `strings.Split(digest, ":")[1]`, which panics without a colon.
abbrev pub digest_part : Bytes → Option Bytes
digest_part digest = get_elem? (split digest b':') 1

module _ {O : Os} (formats : Formats) where
  -- The body of the loop over the layers.
  unfoldable pub extract_layer : Bytes → Bytes → Bytes → OciManifest → Exec (World O) (Unit {0})
  extract_layer from_path to_path label blob =
      if contains blob.digest (codes "sha256")
      then (do
        part ← deref (digest_part blob.digest)
        f ← os_read {O = O} (λ s. O.open_file s (from_path ++ codes "/" ++ part))
        untar formats f to_path label)
      else fail (sprintf (codes "the digest format is not correct %s ") (blob.digest ∷ []))

  -- The loop over the layers.
  unfoldable pub extract_layers :
      Bytes → Bytes → Bytes → Option OciSchema → Exec (World O) (Unit {0})
  extract_layers from_path to_path label oci = do
    schema ← deref oci
    for_each schema.layers (extract_layer from_path to_path label)

  -- `ExtractLayersOCI`
  unfoldable pub extract_layers_oci :
      Bytes → Bytes → Bytes → Option OciSchema → Exec (World O) (Unit {0})
  extract_layers_oci from_path to_path label oci w =
      if is_missing (O.stat w.os (to_path ++ label))
      then extract_layers from_path to_path label oci w
      else log_info (codes "tar exists") [] w
