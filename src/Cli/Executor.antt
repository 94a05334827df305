-- ===== src/Cli/Executor.antt =====
-- pkg/cli/executor.go: `Validate`, `Complete` and `Run`.
use golang_imageindex_list.Prelude.{
  Bytes, codes, List, [], ◌∷◌, ◌++◌, get_elem?, not, bytes_eq, if◌then◌else◌,
}
use golang_imageindex_list.Exec.{
  Result, ok, err, Exec, pure, fail, deref, gets, modify, try, ◌>>=◌, ◌>>◌,
}
use golang_imageindex_list.Strings.{contains, join}
use golang_imageindex_list.Os.{Os}
use golang_imageindex_list.World.{World, os_call}
use golang_imageindex_list.Log.{log_error, log_info, log_trace, set_level}
use golang_imageindex_list.Manifest.Formats.{Formats}
use golang_imageindex_list.Manifest.Service as ManifestService
use golang_imageindex_list.Mirror.Images.{Images}
use golang_imageindex_list.Mirror.Copy as MirrorCopy
use golang_imageindex_list.Collector.Collect.{Collector, new_collector}
use golang_imageindex_list.Collector.Paths.{operator_image_dir, release_image_dir}

abbrev pub logs_dir : Bytes
logs_dir = codes "logs"

abbrev pub working_dir : Bytes
working_dir = codes "working-dir"

-- The fields of `ExecutorSchema` that `Run` calls: `CollectorInterface` and
-- `MakeDirectoryInterface`. The logger and the options are in the state.
pub record Executor (O : Os) : Type 0 where
  pub collect : Collector O
  pub make_dir : Bytes → Exec (World O) (Unit {0})

-- How `%v` shows a slice of strings.
unfoldable pub show_slice : List Bytes → Bytes
show_slice texts = codes "[" ++ (join texts (codes " ") ++ codes "]")

module _ {O : Os} where
  -- The `switch` of `Validate`.
  unfoldable pub check_type : Bytes → Bytes → Exec (World O) (Unit {0})
  check_type image_type reference =
      if bytes_eq image_type (codes "operator")
      then (if not (contains reference (codes "operator"))
          then fail (codes "ensure the --image-index is referencing an operator catalog")
          else pure tt)
      else if bytes_eq image_type (codes "release")
      then (if not (contains reference (codes "release"))
          then fail (codes "ensure the --image-index is referencing a release index")
          else pure tt)
      else fail (codes "first argument must be either 'release' or 'operator'")

  -- `Validate`
  unfoldable pub validate : List Bytes → Exec (World O) (Unit {0})
  validate img_index = do
    reference ← gets (λ w. w.opts.global.reference)
    if bytes_eq reference []
        then fail (codes "the flag --image-index is required - refer to example usage with --help")
        else (do
          image_type ← deref (get_elem? img_index 0)
          check_type image_type reference
          log_info (codes "validate : image-index %v") (show_slice img_index ∷ []))

  -- `MakeDir`
  abbrev pub mkdir_all : Bytes → Exec (World O) (Unit {0})
  mkdir_all dir = os_call {O = O} (λ s. O.mkdir_all s dir)

  -- `Complete`
  unfoldable pub complete : Formats → Images O → List Bytes → Exec (World O) (Executor O)
  complete formats images args = do
    g ← gets (λ w. w.opts.global)
    set_level g.log_level
    image_index ← deref (get_elem? args 0)
    modify (λ w. record w {
      opts = record w.opts { global = record g { dir = working_dir; image_index = image_index } };
    })
    pure (record {
      collect = new_collector (ManifestService.service formats) (MirrorCopy.service images);
      make_dir = mkdir_all;
    })

  -- An error of the body is logged and returned.
  unfoldable pub or_log : Result (Unit {0}) → Exec (World O) (Unit {0})
  or_log (ok _) = pure tt
  or_log (err e) = do log_error (codes " %v ") (e ∷ []); fail e

module _ {O : Os} (ex : Executor O) where
  unfoldable pub make_logged : Bytes → Exec (World O) (Unit {0})
  make_logged dir = do made ← try (ex.make_dir dir); or_log made

  -- `Run` up to the call of the collector. The error of `os.RemoveAll` is dropped.
  unfoldable pub prepare : Exec (World O) (Unit {0})
  prepare = do
    try (os_call {O = O} (λ s. O.remove_all s logs_dir))
    make_logged working_dir
    make_logged logs_dir
    dir ← gets (λ w. w.opts.global.dir)
    log_trace (codes "creating release cache directory %s ")
        ((dir ++ codes "/" ++ release_image_dir) ∷ [])
    make_logged (dir ++ codes "/" ++ release_image_dir)
    log_trace (codes "creating operator cache directory %s ")
        ((dir ++ codes "/" ++ operator_image_dir) ∷ [])
    make_logged (dir ++ codes "/" ++ operator_image_dir)

  -- `Run`
  unfoldable pub run : Exec (World O) (Unit {0})
  run = do prepare; ex.collect
