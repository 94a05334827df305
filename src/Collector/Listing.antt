-- ===== src/Collector/Listing.antt =====
-- What the two listings of `Collect` log.
use mathlib.Core.List.{map-map}
use mathlib.Core.Path.{subst}
use golang_imageindex_list.Prelude.{
  Bytes, codes, List, [], ◌∷◌, ◌++◌, map, flat_map, ◌≡◌, refl, sym, ap, ◌∙◌,
}
use golang_imageindex_list.Exec.{
  Result, ok, err, Outcome, outcome, returned, failed, pure, modify, try, continue, caught,
  for_each, ◌>>=◌, ◌>>◌,
}
use golang_imageindex_list.Os.{Os}
use golang_imageindex_list.World.{World, error, info, debug, os_read}
use golang_imageindex_list.Log.{log_debug}
use golang_imageindex_list.Log.Reports.{
  Message, logged, logged-append, Reports, Reports-line, Reports-bind, Reports-for_each,
}
use golang_imageindex_list.Options.{GlobalOptions}
use golang_imageindex_list.Schema.Catalog.{RelatedImage, DeclarativeConfig}
use golang_imageindex_list.Manifest.Formats.{Formats}
use golang_imageindex_list.Manifest.Documents.{or_nothing}
use golang_imageindex_list.Manifest.Documents.Laws.{images_of, get_release_schema_lem}
use golang_imageindex_list.Manifest.Catalogs.{coloured, catalog_json}
use golang_imageindex_list.Manifest.Catalogs.Lines.{
  Line, object_lines, said, listed, decoded, list_catalogs_lem,
}
use golang_imageindex_list.Manifest.Catalogs
use golang_imageindex_list.Manifest.Service as ManifestService
use golang_imageindex_list.Collector.Paths.{configs_dir, artifacts_dir}
use golang_imageindex_list.Collector.Collect.{
  log_failure, list_components, list_operator, list_operators, list_release,
}

module _ {O : Os} where
  said-logged :
      (lines : List Line) (w : World O) → said lines w ≡ logged (map (λ l. (info, l)) lines) w
  unfolding said logged
  said-logged lines w = rw map-map

-- What is logged of a decoded catalog: its lines, or the error.
abbrev pub catalog_messages : Result (List DeclarativeConfig) → List Message
catalog_messages (ok olm) = map (λ l. (info, l)) (flat_map object_lines olm)
catalog_messages (err e) = (error, (codes "%v", e ∷ [])) ∷ []

-- What is logged of an operator: its name, and what its catalog file holds.
unfoldable pub operator_messages : (O : Os) → Formats → Bytes → O.State → Bytes → List Message
operator_messages O formats configs s file =
    (info, (coloured (codes "[1;95m") (codes " %s "), file ∷ []))
    ∷ catalog_messages (
        decoded formats (O.read_file s (configs ++ codes "/" ++ file ++ codes "/" ++ catalog_json)))

-- What is logged of the components of a release: their names.
abbrev pub component_messages : List RelatedImage → List Message
component_messages components =
    flat_map (λ img. (info, (coloured (codes "[1;95m") (codes "  %s "), img.name ∷ [])) ∷ [])
      components

-- The listing of operators: two lines, and the name and the catalog of each operator, in the order
-- of the directory. If the directory cannot be read, its error, with nothing logged.
unfoldable pub operators_listed :
    {O : Os}
    → Formats
    → GlobalOptions
    → Result (List Bytes)
    → World O
    → Outcome (Unit {0}) × World O
operators_listed {O} formats g (ok files) w = (
  returned tt,
  logged
      ((debug, (codes "List channels for %s", g.reference ∷ []))
        ∷ (debug, (codes "List of all operators in %s", configs_dir g ∷ []))
        ∷ flat_map (operator_messages O formats (configs_dir g) w.os) files)
      w,
)
operators_listed formats g (err e) w = (failed e, w)

abbrev release_head : GlobalOptions → Message
release_head g = (debug, (codes "List release for %s", g.reference ∷ []))

abbrev artifacts_head : GlobalOptions → Message
artifacts_head g = (debug, (codes "List of all release artifacts in %s", artifacts_dir g ∷ []))

abbrev release_heads : GlobalOptions → List Message
release_heads g = release_head g ∷ artifacts_head g ∷ []

-- The listing of a release: two lines, and the name of each component in order, or the error of the
-- decoder.
unfoldable pub release_listed :
    {O : Os} → GlobalOptions → Result (List RelatedImage) → World O → Outcome (Unit {0}) × World O
release_listed g (ok components) w =
    (returned tt, logged (release_heads g ++ component_messages components) w)
release_listed g (err e) w = (failed e, logged (release_heads g) w)

module _ {O : Os} (formats : Formats) where
  after_catalog :
      (r : Result (List DeclarativeConfig)) (w : World O)
      → let now = listed r w in
        continue (caught now.0 now.1).0 (log_failure (codes "%v")) (caught now.0 now.1).1
        ≡ (returned tt, logged (catalog_messages r) w)
  unfolding listed log_failure modify logged pure
  after_catalog (ok olm) w =
      ap (λ now. (returned tt, now)) (said-logged (flat_map object_lines olm) w)
  after_catalog (err e) w = refl

  catalog-Reports :
      (s : O.State) (configs file : Bytes)
      → Reports O s
          (try (Catalogs.list_catalogs formats configs file) >>= log_failure (codes "%v"))
          (catalog_messages (
            decoded formats
              (O.read_file s (configs ++ codes "/" ++ file ++ codes "/" ++ catalog_json))))
  unfolding ◌>>=◌
  catalog-Reports s configs file = record {
    at = λ w h.
        subst
          (λ s.
            (try (Catalogs.list_catalogs formats configs file) >>= log_failure (codes "%v")) w ≡ (
              returned tt,
              logged
                  (catalog_messages (
                    decoded formats
                      (O.read_file s (configs ++ codes "/" ++ file ++ codes "/" ++ catalog_json))))
                  w,
            ))
          h (rw (list_catalogs_lem formats configs file w) (after_catalog _ w));
  }

  list_operator-Reports :
      (s : O.State) (configs file : Bytes)
      → Reports O s
          (list_operator (ManifestService.service formats) configs file)
          (operator_messages O formats configs s file)
  unfolding list_operator operator_messages
  list_operator-Reports s configs file =
      Reports-bind O s (Reports-line O s _ _ _) (catalog-Reports s configs file)

  after_files :
      (g : GlobalOptions) (r : Result (List Bytes)) (w : World O)
      → continue
          (outcome r)
          (λ files. do
            log_debug (codes "List channels for %s") (g.reference ∷ [])
            log_debug (codes "List of all operators in %s") (configs_dir g ∷ [])
            for_each files (list_operator (ManifestService.service formats) (configs_dir g)))
          w
        ≡ operators_listed formats g r w
  unfolding operators_listed ◌>>=◌
  after_files g (ok files) w =
      (Reports-bind O w.os (Reports-line O w.os _ _ _) (
          Reports-bind O w.os (Reports-line O w.os _ _ _)
            (Reports-for_each O w.os _ _ (list_operator-Reports w.os (configs_dir g)) files))).at
        w refl
  after_files g (err e) w = refl

  list_components-Reports :
      (s : O.State) (components : List RelatedImage)
      → Reports O s (list_components components) (component_messages components)
  unfolding list_components
  list_components-Reports s components =
      Reports-for_each O s _ _ (λ img. Reports-line O s _ _ _) components

  after_schema :
      (g : GlobalOptions) (r : Result (List RelatedImage)) (w : World O)
      → continue (outcome r) (list_components {O = O}) (logged (release_heads g) w)
        ≡ release_listed g r w
  unfolding release_listed
  after_schema g (ok components) w =
      (list_components-Reports w.os components).at (logged (release_heads g) w)
        (unfold logged in refl)
      ∙ ap (λ now. (returned tt, now))
          (sym (logged-append (release_heads g) (component_messages components) w))
  after_schema g (err e) w = refl

  after_lines :
      (g : GlobalOptions) (r : Result (List RelatedImage)) (w : World O)
      → continue
          (outcome r)
          (list_components {O = O})
          (logged (artifacts_head g ∷ []) (logged (release_head g ∷ []) w))
        ≡ release_listed g r w
  after_lines g r w =
      subst (λ now. continue (outcome r) (list_components {O = O}) now ≡ release_listed g r w)
        (logged-append (release_head g ∷ []) (artifacts_head g ∷ []) w) (after_schema g r w)

  -- What the two listings of `Collect` do: they log the lines of every operator's catalog, in the
  -- order of the directory, with the error of a catalog in place of its lines, and the name of every
  -- component of a release. They fail only with the error of the directory, or of the decoder of
  -- the release, and change nothing but the log.
  pub listing_lem :
      (g : GlobalOptions) (w : World O)
      → (list_operators (ManifestService.service formats) g w
          ≡ operators_listed formats g (O.read_dir w.os (configs_dir g)) w)
        × (list_release (ManifestService.service formats) g w
            ≡ release_listed g
                (images_of
                  (formats.unmarshal_release (or_nothing (O.read_file w.os (artifacts_dir g)))))
                w)
  unfolding list_operators list_release logged ◌>>=◌ os_read
  listing_lem g w = (
    unfold ◌>>=◌ os_read in after_files g (O.read_dir w.os (configs_dir g)) w,
    rw (get_release_schema_lem formats (artifacts_dir g)) (
        after_lines g
          (images_of (formats.unmarshal_release (or_nothing (O.read_file w.os (artifacts_dir g)))))
          w),
  )
