-- ===== src/Manifest/Catalogs.antt =====
-- pkg/manifest/manifest.go: `ListCatalogs` and `readOperatorCatalog`.
pub mod Lines
pub mod Json
pub mod Spaces
use golang_imageindex_list.Prelude.{
  Bytes, codes, List, [], ◌∷◌, ◌++◌, is_empty, not, bytes_eq, if◌then◌else◌,
}
use golang_imageindex_list.Exec.{Exec, pure, lift, for_each, ◌>>=◌, ◌>>◌}
use golang_imageindex_list.Strings.{replace_all}
use golang_imageindex_list.Os.{Os}
use golang_imageindex_list.World.{World, os_read}
use golang_imageindex_list.Log.{log_info}
use golang_imageindex_list.Schema.Catalog.{ChannelEntry, DeclarativeConfig}
use golang_imageindex_list.Manifest.Formats.{Formats}

abbrev pub catalog_json : Bytes
catalog_json = codes "catalog.json"

-- The text that is decoded: no spaces, and the objects as the elements of one array.
unfoldable pub updated_json : Bytes → Bytes
unfolding replace_all
updated_json text =
    codes "["
    ++ (replace_all (replace_all text (codes " ") []) (b'}' ∷ 10 ∷ b'{' ∷ []) (codes "},{")
        ++ codes "]")

-- A line in an ANSI colour.
abbrev pub coloured : Bytes → Bytes → Bytes
coloured colour text = 27 ∷ (colour ++ (text ++ 27 ∷ codes "[0m"))

abbrev pub channel_format : Bytes
channel_format = coloured (codes "[1;92m") (codes "   channel => %s ")

abbrev pub bundle_format : Bytes
bundle_format = coloured (codes "[1;92m") (codes "   bundle: %s ")

abbrev pub name_format : Bytes
name_format = coloured (codes "[1;94m") (codes "     name: %s ")

module _ {O : Os} where
  -- The body of the loop over the entries of a channel.
  unfoldable pub list_entry : ChannelEntry → Exec (World O) (Unit {0})
  list_entry e = do
    log_info name_format (e.name ∷ [])
    if not (is_empty e.replaces)
        then log_info (codes "       replaces: %s") (e.replaces ∷ [])
        else pure tt
    if not (is_empty e.skips)
        then for_each e.skips (λ x. log_info (codes "       skips: %s") (x ∷ []))
        else pure tt
    if not (is_empty e.skip_range)
        then log_info (codes "       skiprange: %s") (e.skip_range ∷ [])
        else pure tt

  -- The `switch` on the schema of an object.
  unfoldable pub list_object : DeclarativeConfig → Exec (World O) (Unit {0})
  list_object obj =
      if bytes_eq obj.schema (codes "olm.channel")
      then (do log_info channel_format (obj.name ∷ []); for_each obj.entries list_entry)
      else if bytes_eq obj.schema (codes "olm.bundle")
      then log_info bundle_format (obj.name ∷ [])
      else pure tt

module _ {O : Os} (formats : Formats) where
  -- `readOperatorCatalog`
  unfoldable pub read_operator_catalog : Bytes → Exec (World O) (List DeclarativeConfig)
  read_operator_catalog path = do
    text ← os_read {O = O} (λ s. O.read_file s (path ++ codes "/" ++ catalog_json))
    lift (formats.unmarshal_catalog (updated_json text))

  -- `ListCatalogs`
  unfoldable pub list_catalogs : Bytes → Bytes → Exec (World O) (Unit {0})
  list_catalogs file_path op = do
    olm ← read_operator_catalog (file_path ++ codes "/" ++ op)
    for_each olm list_object
