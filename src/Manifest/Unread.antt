-- ===== src/Manifest/Unread.antt =====
-- The options that decide nothing of the documents, the extraction and the listing.
use golang_imageindex_list.Prelude.{
  Bytes, codes, List, [], ◌∷◌, ◌++◌, Option, none, some, inl, inr, Bool-cases, not, bytes_eq,
  is_empty, ◌==◌,
}
use golang_imageindex_list.Exec.{Result, lift, ◌>>=◌}
use golang_imageindex_list.Strings.{contains}
use golang_imageindex_list.Os.{Os}
use golang_imageindex_list.World.{os_read}
use golang_imageindex_list.Options.{CopyOptions}
use golang_imageindex_list.World.Unread.{
  IsBlind, IsBlind-pure, IsBlind-fail, IsBlind-lift, IsBlind-deref, IsBlind-os_read,
  IsBlind-os_call, IsBlind-wrapped, IsBlind-if, IsBlind-log, IsBlind-print, IsBlind-bind,
  IsBlind-for_each,
}
use golang_imageindex_list.Schema.Oci.{OciManifest, OciSchema}
use golang_imageindex_list.Schema.Catalog.{ChannelEntry, DeclarativeConfig}
use golang_imageindex_list.Manifest.Formats.{Formats, Header, TarItem, entry, broken}
use golang_imageindex_list.Manifest.Untar.{
  type_dir, type_reg, copy_problem, copy_content, make_dir, make_file, extract_entry, untar_loop,
  untar,
}
use golang_imageindex_list.Manifest.Layers.{
  is_missing, extract_layer, extract_layers, extract_layers_oci,
}
use golang_imageindex_list.Manifest.Documents.{get_release_schema, collect_images}
use golang_imageindex_list.Manifest.Catalogs.{
  list_entry, list_object, read_operator_catalog, list_catalogs,
}

module _ {O : Os} {other : CopyOptions} where
  pub reading-IsBlind :
      {A : Type 0} (file : Bytes) (decode : Bytes → Result A)
      → IsBlind O other (os_read {O = O} (λ s. O.read_file s file) >>= λ text. lift (decode text))
  reading-IsBlind file decode =
      IsBlind-bind (IsBlind-os_read _) (λ text. IsBlind-lift (decode text))

  pub get_release_schema-IsBlind :
      (formats : Formats) (file : Bytes) → IsBlind O other (get_release_schema formats file)
  unfolding get_release_schema
  get_release_schema-IsBlind formats file = record {
    at = λ w.
        (IsBlind-bind {O = O} {other = other} (IsBlind-lift _)
            (λ release. IsBlind-pure (collect_images release.spec.tags []))).at
          w;
  }

  copy_problem-IsBlind : (problem : Option Bytes) → IsBlind O other (copy_problem {O = O} problem)
  unfolding copy_problem
  copy_problem-IsBlind none = IsBlind-pure tt
  copy_problem-IsBlind (some e) = IsBlind-fail e

  extract_entry-IsBlind :
      (path : Bytes) (h : Header) (content : Bytes) (problem : Option Bytes)
      → IsBlind O other (extract_entry {O = O} path h content problem)
  unfolding extract_entry make_dir make_file copy_content
  extract_entry-IsBlind path h content problem =
      IsBlind-if (h.typeflag == type_dir)
        (IsBlind-if (not (bytes_eq h.name (codes "./"))) (IsBlind-wrapped _ (IsBlind-os_call _))
          (IsBlind-pure tt))
        (IsBlind-if (h.typeflag == type_reg)
          (IsBlind-bind (IsBlind-wrapped _ (IsBlind-os_call _)) (λ _.
            IsBlind-wrapped _
              (IsBlind-bind (IsBlind-os_call _) (λ _. copy_problem-IsBlind problem))))
          (IsBlind-print _))

  untar_loop-IsBlind :
      (path text : Bytes) (items : List TarItem)
      → IsBlind O other (untar_loop {O = O} path text items)
  unfolding untar_loop
  untar_loop-IsBlind path text [] = IsBlind-pure tt
  untar_loop-IsBlind path text (broken e ∷ items) = IsBlind-fail _
  untar_loop-IsBlind path text (entry h content problem ∷ items) =
      IsBlind-bind
        (IsBlind-if (contains h.name text) (extract_entry-IsBlind path h content problem)
          (IsBlind-pure tt))
        (λ _. untar_loop-IsBlind path text items)

  module _ (formats : Formats) where
    untar-IsBlind :
        (stream path label : Bytes) → IsBlind O other (untar {O = O} formats stream path label)
    unfolding untar
    untar-IsBlind stream path label =
        IsBlind-bind (IsBlind-wrapped _ (IsBlind-lift _))
          (λ archive. untar_loop-IsBlind path _ (formats.tar_items archive))

    extract_layer-IsBlind :
        (from_path to_path label : Bytes) (blob : OciManifest)
        → IsBlind O other (extract_layer {O = O} formats from_path to_path label blob)
    unfolding extract_layer
    extract_layer-IsBlind from_path to_path label blob =
        IsBlind-if (contains blob.digest (codes "sha256"))
          (IsBlind-bind (IsBlind-deref _)
            (λ part. IsBlind-bind (IsBlind-os_read _) (λ f. untar-IsBlind f to_path label)))
          (IsBlind-fail _)

    extract_layers-IsBlind :
        (from_path to_path label : Bytes) (oci : Option OciSchema)
        → IsBlind O other (extract_layers {O = O} formats from_path to_path label oci)
    unfolding extract_layers
    extract_layers-IsBlind from_path to_path label oci =
        IsBlind-bind (IsBlind-deref oci)
          (λ schema. IsBlind-for_each schema.layers (extract_layer-IsBlind from_path to_path label))

    pub extract_layers_oci-IsBlind :
        (from_path to_path label : Bytes) (oci : Option OciSchema)
        → IsBlind O other (extract_layers_oci {O = O} formats from_path to_path label oci)
    unfolding extract_layers_oci
    extract_layers_oci-IsBlind from_path to_path label oci = record {
      at = λ w. elim (Bool-cases (is_missing (O.stat w.os (to_path ++ label)))) [
        | inl absent ↦ rw absent ((extract_layers-IsBlind from_path to_path label oci).at w)
        | inr there ↦ rw there ((IsBlind-log {O = O} {other = other} _ _ _).at w)
      ];
    }

    list_entry-IsBlind : (e : ChannelEntry) → IsBlind O other (list_entry {O = O} e)
    unfolding list_entry
    list_entry-IsBlind e = IsBlind-bind (IsBlind-log _ _ _) (λ _.
        IsBlind-bind (IsBlind-if (not (is_empty e.replaces)) (IsBlind-log _ _ _) (IsBlind-pure tt))
          (λ _.
            IsBlind-bind
              (IsBlind-if (not (is_empty e.skips))
                (IsBlind-for_each e.skips (λ x. IsBlind-log _ _ _)) (IsBlind-pure tt))
              (λ _.
                IsBlind-if (not (is_empty e.skip_range)) (IsBlind-log _ _ _) (IsBlind-pure tt))))

    list_object-IsBlind : (obj : DeclarativeConfig) → IsBlind O other (list_object {O = O} obj)
    unfolding list_object
    list_object-IsBlind obj =
        IsBlind-if (bytes_eq obj.schema (codes "olm.channel"))
          (IsBlind-bind (IsBlind-log _ _ _)
            (λ _. IsBlind-for_each obj.entries (λ e. list_entry-IsBlind e)))
          (IsBlind-if (bytes_eq obj.schema (codes "olm.bundle")) (IsBlind-log _ _ _)
            (IsBlind-pure tt))

    pub list_catalogs-IsBlind :
        (file_path op : Bytes) → IsBlind O other (list_catalogs {O = O} formats file_path op)
    unfolding list_catalogs read_operator_catalog
    list_catalogs-IsBlind file_path op =
        IsBlind-bind (reading-IsBlind _ (λ text. _))
          (λ olm. IsBlind-for_each olm list_object-IsBlind)
