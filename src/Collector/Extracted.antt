-- ===== src/Collector/Extracted.antt =====
-- From the layers of an operator image to the listing of its operators.
use mathlib.Core.Path.{subst}
use golang_imageindex_list.Prelude.{
  Bytes, codes, List, [], ◌∷◌, ◌++◌, some, true, ◌≡◌, ap, ◌∙◌, sym, append_assoc,
}
use golang_imageindex_list.Strings.{contains}
use golang_imageindex_list.Exec.{ok, returned}
use golang_imageindex_list.Exec.Laws.{bind_returned}
use golang_imageindex_list.Os.{Os}
use golang_imageindex_list.Os.Files.{IsFileSystem}
use golang_imageindex_list.World.{World, info}
use golang_imageindex_list.Log.Reports.{Message, logged}
use golang_imageindex_list.Options.{GlobalOptions}
use golang_imageindex_list.Schema.Oci.{OciSchema}
use golang_imageindex_list.Schema.OperatorConfig.{OperatorConfigSchema}
use golang_imageindex_list.Manifest.Formats.{Formats, Header}
use golang_imageindex_list.Manifest.Untar.{target, trim_label}
use golang_imageindex_list.Manifest.Layers.{is_missing, digest_part}
use golang_imageindex_list.Manifest.Layers.Archives.{ImageHolds}
use golang_imageindex_list.Manifest.Layers.Image.{extract_layers_oci-contents}
use golang_imageindex_list.Manifest.Catalogs.{coloured, catalog_json, updated_json}
use golang_imageindex_list.Manifest.Catalogs.Lines.{decoded}
use golang_imageindex_list.Manifest.Service as ManifestService
use golang_imageindex_list.Mirror.{Mirror}
use golang_imageindex_list.Collector.Paths.{
  operator_cache_dir, operator_copy_dir, operator_blob, operator_blobs_dir, configs_dir,
}
use golang_imageindex_list.Collector.Fetch.{copy_image_to, fetch_operator}
use golang_imageindex_list.Collector.Collect.{unless_cached, list_operators, collect_operator}
use golang_imageindex_list.Collector.Follow.{Holds, IsCopied, fetch_operator_follows}
use golang_imageindex_list.Collector.Listing.{
  catalog_messages, operator_messages, operators_listed, listing_lem,
}

-- The name that the catalog of an operator has in an archive.
abbrev pub catalog_entry : Bytes → Bytes
catalog_entry op = codes "configs/" ++ (op ++ (codes "/" ++ catalog_json))

catalog_path :
    (g : GlobalOptions) (op : Bytes)
    → configs_dir g ++ codes "/" ++ op ++ codes "/" ++ catalog_json
      ≡ operator_cache_dir g ++ codes "//" ++ catalog_entry op
unfolding configs_dir operator_cache_dir
catalog_path g op = simp append_assoc

-- What is logged of an operator with the catalog.
abbrev pub catalog_listing : Formats → Bytes → Bytes → List Message
catalog_listing formats op content =
    (info, (coloured (codes "[1;95m") (codes " %s "), op ∷ []))
    ∷ catalog_messages (formats.unmarshal_catalog (updated_json content))

module _ {O : Os} {Apart : Bytes → Bytes → Type 0} (files : IsFileSystem O Apart)
    (formats : Formats) (g : GlobalOptions) (h : Header) (content : Bytes) (op : Bytes)
    (catalog : h.name ≡ catalog_entry op) where
  catalog_there :
      (s : O.State)
      → O.read_file s (target (operator_cache_dir g) h) ≡ ok content
      → O.read_file s (configs_dir g ++ codes "/" ++ op ++ codes "/" ++ catalog_json) ≡ ok content
  catalog_there s there =
      ap (O.read_file s) (catalog_path g op)
      ∙ files.slashes s (operator_cache_dir g) (catalog_entry op) content (
          ap (λ name. O.read_file s (operator_cache_dir g ++ codes "/" ++ name)) (sym catalog)
          ∙ there)

  catalog_messages_of :
      (s : O.State)
      → O.read_file s (target (operator_cache_dir g) h) ≡ ok content
      → operator_messages O formats (configs_dir g) s op ≡ catalog_listing formats op content
  unfolding operator_messages decoded
  catalog_messages_of s there = rw (catalog_there s there)

module _ {O : Os} (formats : Formats) (mirror : Mirror O) (g : GlobalOptions) (w : World O) where
  -- The state behind the fetch of an operator image.
  abbrev pub fetched : World O
  fetched = (fetch_operator (ManifestService.service formats) mirror g w).1

  fetch_then_list :
      is_missing (O.stat w.os (operator_cache_dir g)) ≡ true
      → (fetch_operator (ManifestService.service formats) mirror g w).0 ≡ returned tt
      → collect_operator (ManifestService.service formats) mirror g w
        ≡ list_operators (ManifestService.service formats) g fetched
  unfolding collect_operator unless_cached
  fetch_then_list absent done =
      bind_returned
        (unless_cached (operator_cache_dir g)
          (fetch_operator (ManifestService.service formats) mirror g))
        (λ _. list_operators (ManifestService.service formats) g)
        (rw absent (λ i. (done i, fetched)))

module _ {O : Os} {Apart : Bytes → Bytes → Type 0} (files : IsFileSystem O Apart)
    (formats : Formats) (mirror : Mirror O) (g : GlobalOptions) (w now : World O)
    (index image : OciSchema) (part : Bytes) (config : OperatorConfigSchema) (config_part : Bytes)
    (copied : copy_image_to mirror g (operator_copy_dir g) w ≡ (returned tt, now))
    (c : IsCopied O formats (operator_copy_dir g) (operator_blob g) now.os index image part)
    (named : contains c.first.digest (codes "sha256") ≡ true)
    (split : digest_part image.config.digest ≡ some config_part)
    (config_there : Holds O now.os formats.unmarshal_operator_config
      (operator_blob g config_part)
      config) where
  abbrev label : Bytes
  label = config.config.labels.operators_operatorframework_io_index_configs_v1

  -- The branch of `Collect` for an operator image that is not there yet. If the image is copied with
  -- its documents, the path that `ExtractLayersOCI` looks at is missing too, and the fetch returns
  -- without an error, then the operators that the directory has after it are listed, and what is
  -- logged of each of these that has a catalog in the image, at `configs/<operator>/catalog.json`,
  -- is its name and the lines that this catalog decodes to.
  pub collect_fetched_listed :
      (h : Header) (content op : Bytes)
      → h.name ≡ catalog_entry op
      → ImageHolds O formats
          (operator_blobs_dir g)
          now.os
          Apart
          (operator_cache_dir g)
          (trim_label label)
          image.layers
          h
          content
      → is_missing (O.stat w.os (operator_cache_dir g)) ≡ true
      → is_missing (O.stat now.os (operator_cache_dir g ++ label)) ≡ true
      → (fetch_operator (ManifestService.service formats) mirror g w).0 ≡ returned tt
      → (collect_operator (ManifestService.service formats) mirror g w
          ≡ operators_listed formats g
              (O.read_dir (fetched formats mirror g w).os (configs_dir g))
              (fetched formats mirror g w))
        × (operator_messages O formats (configs_dir g) (fetched formats mirror g w).os op
            ≡ catalog_listing formats op content)
  collect_fetched_listed h content op catalog holds fresh absent done =
      let follows =
        fetch_operator_follows formats mirror g w now index image part config config_part copied c
          named split config_there in
      (
        fetch_then_list formats mirror g w fresh done
            ∙ (listing_lem formats g (fetched formats mirror g w)).0,
        catalog_messages_of files formats g h content op catalog (fetched formats mirror g w).os (
            subst (λ r. O.read_file r.1.os (target (operator_cache_dir g) h) ≡ ok content)
              (sym follows)
              (extract_layers_oci-contents files formats (operator_blobs_dir g)
                (operator_cache_dir g) label h content image _ (unfold logged in holds)
                (unfold logged in absent) (subst (λ r. r.0 ≡ returned tt) follows done))),
      )
