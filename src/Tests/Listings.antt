-- ===== src/Tests/Listings.antt =====
-- The theorems about releases and catalogs, at small documents.
use golang_imageindex_list.Prelude.{codes, [], ◌∷◌, ◌++◌, ◌≡◌, refl, arith, bytes_eq}
use golang_imageindex_list.Strings.{contains}
use golang_imageindex_list.Manifest.Catalogs.{catalog_json, updated_json, list_catalogs}
use golang_imageindex_list.Manifest.Catalogs.Lines.{listed, decoded, list_catalogs_lem}
use golang_imageindex_list.Manifest.Catalogs.Spaces.{unspaced, list_catalogs-unspaced}
use golang_imageindex_list.Manifest.Catalogs.Json.{objects, updated_json-objects}
use golang_imageindex_list.Tests.Memory.{Disk, memory, file}
use golang_imageindex_list.Tests.Values.{formats, world}

abbrev disk : Disk
disk = (codes "c/op/catalog.json", file (codes "{}")) ∷ []

list_catalogs_lem_example :
    list_catalogs formats (codes "c") (codes "op") (world disk)
    ≡ listed
        (decoded formats (
          memory.read_file disk
            (codes "c" ++ codes "/" ++ codes "op" ++ codes "/" ++ catalog_json)))
        (world disk)
list_catalogs_lem_example = list_catalogs_lem formats (codes "c") (codes "op") (world disk)

updated_json-objects_example :
    updated_json (objects (codes "1" ∷ codes "2" ∷ []) (10 ∷ []))
    ≡ codes "[" ++ (objects (codes "1" ∷ codes "2" ∷ []) (codes ",") ++ codes "]")
unfolding contains
updated_json-objects_example =
    updated_json-objects (codes "1" ∷ codes "2" ∷ [])
      (((omega arith, tt), refl), (((omega arith, tt), refl), tt))

-- The same catalog with other spaces.
abbrev spaced : Disk
spaced = (codes "c/op/catalog.json", file (codes "{ } ")) ∷ []

list_catalogs-unspaced_example :
    list_catalogs formats (codes "c") (codes "op") (record (world disk) { os = spaced }) ≡ (
      (list_catalogs formats (codes "c") (codes "op") (world disk)).0,
      record (list_catalogs formats (codes "c") (codes "op") (world disk)).1 { os = spaced },
    )
unfolding bytes_eq unspaced
list_catalogs-unspaced_example =
    list_catalogs-unspaced formats (codes "c") (codes "op") (world disk) spaced (codes "{}")
      (codes "{ } ") refl refl refl
