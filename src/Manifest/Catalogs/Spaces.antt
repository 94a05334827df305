-- ===== src/Manifest/Catalogs/Spaces.antt =====
-- Which catalog files are listed alike.
use golang_imageindex_list.Prelude.{
  Bytes, List, codes, [], ◌∷◌, ◌++◌, ◌≡◌, refl, sym, ap, ◌∙◌, zero, ◌==◌, if◌then◌else◌, arith,
}
use golang_imageindex_list.Strings.{replace_loop, replace_all}
use golang_imageindex_list.Exec.{Result, ok, err}
use golang_imageindex_list.Os.{Os}
use golang_imageindex_list.World.{World}
use golang_imageindex_list.Schema.Catalog.{DeclarativeConfig}
use golang_imageindex_list.Manifest.Formats.{Formats}
use golang_imageindex_list.Manifest.Catalogs.{catalog_json, updated_json, list_catalogs}
use golang_imageindex_list.Manifest.Catalogs.Lines.{listed, said, decoded, list_catalogs_lem}

-- The bytes of a text other than spaces.
unfoldable pub unspaced : Bytes → Bytes
unspaced [] = []
unspaced (c ∷ s) = let rest = unspaced s in if c == b' ' then rest else c ∷ rest

remove_spaces : (s : Bytes) → replace_loop (codes " ") [] s zero ≡ unspaced s
unfolding replace_loop unspaced
remove_spaces [] = refl
remove_spaces (c ∷ s) = ground (arith, remove_spaces s)

updated_json-unspaced : (a b : Bytes) → unspaced a ≡ unspaced b → updated_json a ≡ updated_json b
unfolding updated_json replace_all
updated_json-unspaced a b same = rw (remove_spaces a, remove_spaces b, same) refl

decoded-unspaced :
    (formats : Formats) (a b : Bytes)
    → unspaced a ≡ unspaced b
    → decoded formats (ok a) ≡ decoded formats (ok b)
unfolding decoded
decoded-unspaced formats a b same = ap formats.unmarshal_catalog (updated_json-unspaced a b same)

module _ {O : Os} (s : O.State) where
  listed_moved :
      (r : Result (List DeclarativeConfig)) (w : World O)
      → listed r (record w { os = s }) ≡ ((listed r w).0, record (listed r w).1 { os = s })
  unfolding listed said
  listed_moved (ok olm) w = refl
  listed_moved (err e) w = refl

module _ {O : Os} (formats : Formats) (file_path op : Bytes) (w : World O) (s : O.State) where
  -- Two catalog files whose texts are the same but for spaces, also those inside a string, are listed
  -- alike: the call ends the same way and logs the same lines.
  pub list_catalogs-unspaced :
      (a b : Bytes)
      → O.read_file w.os (file_path ++ codes "/" ++ op ++ codes "/" ++ catalog_json) ≡ ok a
      → O.read_file s (file_path ++ codes "/" ++ op ++ codes "/" ++ catalog_json) ≡ ok b
      → unspaced a ≡ unspaced b
      → list_catalogs formats file_path op (record w { os = s }) ≡ (
        (list_catalogs formats file_path op w).0,
        record (list_catalogs formats file_path op w).1 { os = s },
      )
  list_catalogs-unspaced a b here there same =
      let decodes =
        ap (decoded formats) there
        ∙ decoded-unspaced formats b a (sym same)
        ∙ ap (decoded formats) (sym here) in
      list_catalogs_lem formats file_path op (record w { os = s })
      ∙ (ap (λ r. listed r (record w { os = s })) decodes
          ∙ (listed_moved s _ w
              ∙ ap (λ r. (r.0, record r.1 { os = s }))
                  (sym (list_catalogs_lem formats file_path op w))))
