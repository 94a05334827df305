-- ===== src/Collector/Collect.antt =====
-- pkg/index/list-images.go: `Collect`.
use golang_imageindex_list.Prelude.{Bytes, codes, List, [], ◌∷◌, if◌then◌else◌}
use golang_imageindex_list.Exec.{Result, ok, err, Exec, pure, gets, try, for_each, ◌>>=◌, ◌>>◌}
use golang_imageindex_list.Strings.{contains}
use golang_imageindex_list.Os.{Os}
use golang_imageindex_list.World.{World, os_call, os_read}
use golang_imageindex_list.Log.{log_info, log_debug, log_error}
use golang_imageindex_list.Options.{GlobalOptions}
use golang_imageindex_list.Schema.Catalog.{RelatedImage}
use golang_imageindex_list.Manifest.{Manifest}
use golang_imageindex_list.Manifest.Layers.{is_missing}
use golang_imageindex_list.Manifest.Catalogs.{coloured}
use golang_imageindex_list.Mirror.{Mirror}
use golang_imageindex_list.Collector.Paths.{
  logs_file, operator_cache_dir, configs_dir, release_cache_dir, artifacts_dir,
}
use golang_imageindex_list.Collector.Fetch.{err_msg, fetch_operator, fetch_release}

module _ {O : Os} where
  -- `if err != nil { o.Log.Error(format, err) }`: the error goes no further.
  unfoldable pub log_failure : Bytes → Result (Unit {0}) → Exec (World O) (Unit {0})
  log_failure format (ok _) = pure tt
  log_failure format (err e) = log_error format (e ∷ [])

  -- The artifact is fetched only if `os.Stat` says that it does not exist.
  unfoldable pub unless_cached : Bytes → Exec (World O) (Unit {0}) → Exec (World O) (Unit {0})
  unless_cached cache_dir fetch w =
      if is_missing (O.stat w.os cache_dir) then fetch w else pure tt w

  -- The loop over the components of a release.
  unfoldable pub list_components : List RelatedImage → Exec (World O) (Unit {0})
  list_components components =
      for_each components
        (λ img. log_info (coloured (codes "[1;95m") (codes "  %s ")) (img.name ∷ []))

module _ {O : Os} (manifest : Manifest O) where
  -- The body of the loop over the operators. An operator that cannot be listed is logged.
  unfoldable pub list_operator : Bytes → Bytes → Exec (World O) (Unit {0})
  list_operator configs file = do
    log_info (coloured (codes "[1;95m") (codes " %s ")) (file ∷ [])
    listed ← try (manifest.list_catalogs configs file)
    log_failure (codes "%v") listed

  unfoldable pub list_operators : GlobalOptions → Exec (World O) (Unit {0})
  list_operators g = do
    files ← os_read {O = O} (λ s. O.read_dir s (configs_dir g))
    log_debug (codes "List channels for %s") (g.reference ∷ [])
    log_debug (codes "List of all operators in %s") (configs_dir g ∷ [])
    for_each files (list_operator (configs_dir g))

  unfoldable pub list_release : GlobalOptions → Exec (World O) (Unit {0})
  list_release g = do
    log_debug (codes "List release for %s") (g.reference ∷ [])
    log_debug (codes "List of all release artifacts in %s") (artifacts_dir g ∷ [])
    components ← manifest.get_release_schema (artifacts_dir g)
    list_components components

module _ {O : Os} (manifest : Manifest O) (mirror : Mirror O) where
  unfoldable pub collect_operator : GlobalOptions → Exec (World O) (Unit {0})
  collect_operator g = do
    unless_cached (operator_cache_dir g) (fetch_operator manifest mirror g)
    list_operators manifest g

  unfoldable pub collect_release : GlobalOptions → Exec (World O) (Unit {0})
  collect_release g = do
    unless_cached (release_cache_dir g) (fetch_release manifest mirror g)
    list_release manifest g

  -- `Collect`. The log file is written by nothing but the copy's report.
  unfoldable pub collect : Exec (World O) (Unit {0})
  collect = do
    created ← try (os_call {O = O} (λ s. O.create s logs_file))
    log_failure err_msg created
    g ← gets (λ w. w.opts.global)
    if contains g.image_index (codes "operator") then collect_operator g else pure tt
    if contains g.image_index (codes "release") then collect_release g else pure tt

-- `CollectorInterface`: its method `Collect`.
abbrev pub Collector : Os → Type 0
Collector O = Exec (World O) (Unit {0})

-- `New`. The logger and the options are in the state.
abbrev pub new_collector : {O : Os} → Manifest O → Mirror O → Collector O
new_collector manifest mirror = collect manifest mirror
