-- ===== src/Manifest/Untar/Filter.antt =====
-- `untar` is an extraction of the entries that match.
use golang_imageindex_list.Prelude.{
  Bytes, List, [], ◌∷◌, ◌≡◌, refl, Bool-cases, inl, inr, if◌then◌else◌,
}
use golang_imageindex_list.Strings.{contains}
use golang_imageindex_list.Strings.Searching.{contains-nil}
use golang_imageindex_list.Exec.{◌>>=◌}
use golang_imageindex_list.Os.{Os}
use golang_imageindex_list.Manifest.Formats.{TarItem, entry, broken}
use golang_imageindex_list.Manifest.Untar.{untar_loop}

-- The entries whose name contains the text, and the errors.
pub matching : Bytes → List TarItem → List TarItem
matching name [] = []
matching name (broken e ∷ items) = broken e ∷ matching name items
matching name (entry header content problem ∷ items) =
    let rest = matching name items in
    if contains header.name name then entry header content problem ∷ rest else rest

module _ {O : Os} (path name : Bytes) where
  -- An archive is extracted as the archive of the matching entries, all of which are extracted:
  -- the others have no effect.
  pub untar_loop-matching :
      (items : List TarItem)
      → untar_loop {O = O} path name items ≡ untar_loop path [] (matching name items)
  unfolding untar_loop matching ◌>>=◌
  untar_loop-matching [] = refl
  untar_loop-matching (broken e ∷ items) = refl
  untar_loop-matching (entry header content problem ∷ items) =
      elim (Bool-cases (contains header.name name)) [
        | inl hit ↦ rw hit (rw (contains-nil header.name) (rw (untar_loop-matching items)))
        | inr miss ↦ rw (miss) (untar_loop-matching items)
      ]
