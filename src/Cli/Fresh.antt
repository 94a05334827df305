-- ===== src/Cli/Fresh.antt =====
-- A request for an operator image that is not there yet, from the arguments to the exit status.
use golang_imageindex_list.Prelude.{Bytes, codes, List, ◌∷◌, ◌++◌, some, true, ◌≡◌, ap, ◌∙◌}
use golang_imageindex_list.Strings.{contains}
use golang_imageindex_list.Exec.{ok, returned}
use golang_imageindex_list.Os.{Os}
use golang_imageindex_list.Os.Files.{IsFileSystem}
use golang_imageindex_list.World.{World}
use golang_imageindex_list.Options.{GlobalOptions}
use golang_imageindex_list.Schema.Oci.{OciSchema}
use golang_imageindex_list.Schema.OperatorConfig.{OperatorConfigSchema}
use golang_imageindex_list.Manifest.Formats.{Formats, Header}
use golang_imageindex_list.Manifest.Untar.{trim_label}
use golang_imageindex_list.Manifest.Layers.{is_missing, digest_part}
use golang_imageindex_list.Manifest.Layers.Archives.{ImageHolds}
use golang_imageindex_list.Manifest.Service as ManifestService
use golang_imageindex_list.Mirror.{Mirror}
use golang_imageindex_list.Mirror.Images.{Images}
use golang_imageindex_list.Mirror.Copy as MirrorCopy
use golang_imageindex_list.Collector.Paths.{
  operator_cache_dir, operator_copy_dir, operator_blob, operator_blobs_dir, configs_dir,
}
use golang_imageindex_list.Collector.Fetch.{copy_image_to, fetch_operator}
use golang_imageindex_list.Collector.Follow.{Holds, IsCopied}
use golang_imageindex_list.Collector.Listing.{operator_messages, operators_listed}
use golang_imageindex_list.Collector.Extracted.{
  catalog_entry, catalog_listing, fetched, collect_fetched_listed,
}
use golang_imageindex_list.Cli.Executor.{validate}
use golang_imageindex_list.Cli.Main.{run_command}
use golang_imageindex_list.Cli.Served.{MakesDirectories, options, opened, operator_served}

module _ {O : Os} {Apart : Bytes → Bytes → Type 0} (files : IsFileSystem O Apart)
    (formats : Formats) (images : Images O) (args : List Bytes) (w : World O) where
  abbrev g : GlobalOptions
  g = options formats images args (codes "operator") w

  abbrev begin : World O
  begin = opened formats images args (codes "operator") w

  abbrev mirror : Mirror O
  mirror = MirrorCopy.service images

  -- The state behind the fetch.
  abbrev pub extracted : World O
  extracted = fetched formats mirror g begin

  -- A request for operators that `Validate` lets through, where the four directories of the run can be made, for an
  -- image that is not there yet. If the image is copied with its index, its manifest and its config,
  -- found by their digests, the path that `ExtractLayersOCI` looks at is missing too, the fetch
  -- returns without an error, and the directory of the operators can be read after it, then the
  -- program ends with status 0 and the listing of every operator in the directory. Of an operator
  -- with a catalog in the image, that is a file `configs/<operator>/catalog.json` that no later
  -- entry or layer overwrites, where no layer overwrites a blob, what is logged is its name and the
  -- lines that this catalog decodes to.
  pub fresh_operator_served :
      (now : World O) (index image : OciSchema) (part : Bytes) (config : OperatorConfigSchema)
      (config_part : Bytes) (names : List Bytes) (h : Header) (content op : Bytes)
      → (validate (codes "operator" ∷ args) w).0 ≡ returned tt
      → MakesDirectories formats images args (codes "operator") w
      → is_missing (O.stat begin.os (operator_cache_dir g)) ≡ true
      → copy_image_to mirror g (operator_copy_dir g) begin ≡ (returned tt, now)
      → (c : IsCopied O formats (operator_copy_dir g) (operator_blob g) now.os index image part)
      → contains c.first.digest (codes "sha256") ≡ true
      → digest_part image.config.digest ≡ some config_part
      → Holds O now.os formats.unmarshal_operator_config (operator_blob g config_part) config
      → is_missing (
          O.stat now.os (
            operator_cache_dir g
            ++ config.config.labels.operators_operatorframework_io_index_configs_v1))
        ≡ true
      → h.name ≡ catalog_entry op
      → ImageHolds O formats
          (operator_blobs_dir g)
          now.os
          Apart
          (operator_cache_dir g)
          (trim_label config.config.labels.operators_operatorframework_io_index_configs_v1)
          image.layers
          h
          content
      → (fetch_operator (ManifestService.service formats) mirror g begin).0 ≡ returned tt
      → O.read_dir extracted.os (configs_dir g) ≡ ok names
      → (run_command formats images (codes "operator" ∷ args) w
          ≡ (returned 0, (operators_listed formats g (ok names) extracted).1))
        × (operator_messages O formats (configs_dir g) extracted.os op
            ≡ catalog_listing formats op content)
  unfolding operators_listed
  fresh_operator_served now index image part config config_part names h content op valid made fresh
        copied c named split config_there absent catalog holds done readable =
      let (collected, shown) =
        collect_fetched_listed files formats mirror g begin now index image part config config_part
          copied c named split config_there h content op catalog holds fresh absent done in
      (
        operator_served formats images args w _ valid made
            (collected ∙ ap (λ r. operators_listed formats g r extracted) readable),
        shown,
      )
