-- ===== src/Collector/Service.antt =====
-- The methods of the manifest component that list do not panic.
use golang_imageindex_list.Prelude.{Bytes, codes, [], not, is_empty, bytes_eq}
use golang_imageindex_list.Exec.{pure}
use golang_imageindex_list.Exec.Safe.{
  IsSafe, IsSafe-pure, IsSafe-lift, IsSafe-modify, IsSafe-if, IsSafe-bind, IsSafe-for_every,
}
use golang_imageindex_list.Os.{Os}
use golang_imageindex_list.World.Safe.{IsSafe-os_read}
use golang_imageindex_list.Manifest.Formats.{Formats}
use golang_imageindex_list.Manifest.Documents.{get_release_schema, collect_images, or_nothing}
use golang_imageindex_list.Manifest.Catalogs.{
  list_catalogs, read_operator_catalog, list_object, list_entry,
}
use golang_imageindex_list.Schema.Catalog.{ChannelEntry, DeclarativeConfig}

module _ {O : Os} (formats : Formats) where
  entry-IsSafe : (e : ChannelEntry) → IsSafe (list_entry {O = O} e)
  unfolding list_entry
  entry-IsSafe e = IsSafe-bind _ _ (IsSafe-modify _) (λ _.
      IsSafe-bind _ _
        (IsSafe-if (not (is_empty e.replaces)) _ _ (λ _. IsSafe-modify _) (λ _. IsSafe-pure tt))
        (λ _.
          IsSafe-bind _ _
            (IsSafe-if (not (is_empty e.skips)) _ _
              (λ _. IsSafe-for_every e.skips _ (λ x. IsSafe-modify _)) (λ _. IsSafe-pure tt))
            (λ _.
              IsSafe-if (not (is_empty e.skip_range)) _ _ (λ _. IsSafe-modify _)
                (λ _. IsSafe-pure tt))))

  object-IsSafe : (obj : DeclarativeConfig) → IsSafe (list_object {O = O} obj)
  unfolding list_object
  object-IsSafe obj =
      IsSafe-if (bytes_eq obj.schema (codes "olm.channel")) _ _
        (λ _. IsSafe-bind _ _ (IsSafe-modify _) (λ _. IsSafe-for_every obj.entries _ entry-IsSafe))
        (λ _.
          IsSafe-if (bytes_eq obj.schema (codes "olm.bundle")) _ _ (λ _. IsSafe-modify _)
            (λ _. IsSafe-pure tt))

  pub listing-IsSafe : (dir op : Bytes) → IsSafe (list_catalogs {O = O} formats dir op)
  unfolding list_catalogs read_operator_catalog
  listing-IsSafe dir op =
      IsSafe-bind _ _ (IsSafe-bind _ _ (IsSafe-os_read _) (λ text. IsSafe-lift _))
        (λ olm. IsSafe-for_every olm _ object-IsSafe)

  pub release-IsSafe : (file : Bytes) → IsSafe (get_release_schema {O = O} formats file)
  unfolding get_release_schema
  release-IsSafe file = record {
    at = λ w.
        (IsSafe-bind _ (λ release. pure (collect_images release.spec.tags []))
            (IsSafe-lift (formats.unmarshal_release (or_nothing (O.read_file w.os file))))
            (λ release. IsSafe-pure _)).at
          w;
  }
