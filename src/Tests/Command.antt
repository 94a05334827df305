-- ===== src/Tests/Command.antt =====
-- The theorems about the command, at concrete arguments.
use golang_imageindex_list.Prelude.{codes, [], ◌∷◌, ◌≡◌, ◌↔◌, inl, refl, bytes_eq}
use golang_imageindex_list.Exec.{err, returned, failed, pure, fail, ◌>>=◌}
use golang_imageindex_list.World.{World}
use golang_imageindex_list.Strings.{contains}
use golang_imageindex_list.Manifest.Service as ManifestService
use golang_imageindex_list.Mirror.Copy as MirrorCopy
use golang_imageindex_list.Collector.Branch.{ListsOne}
use golang_imageindex_list.Cli.Request.{ended, completed, validated_lists_one, run_command_collects}
use golang_imageindex_list.Cli.Prepared.{Makes, prepared}
use golang_imageindex_list.Collector.Collect.{collect}
use golang_imageindex_list.Cli.Executor.{check_type, validate, complete, run}
use golang_imageindex_list.Cli.Main.{run_command}
use golang_imageindex_list.Cli.Validation.{IsRequest, validate_iff, run_command_refused}
use golang_imageindex_list.Cli.Run.{Blocks, IsBlocked, run_blocked}
use golang_imageindex_list.Cli.Unchanged.{with_collect}
use golang_imageindex_list.Os.{Os}
use golang_imageindex_list.Tests.Memory.{memory}
use golang_imageindex_list.Tests.Values.{formats, images, global, options, world}

validate_iff_example :
    ((validate (codes "operator" ∷ []) (world [])).0 ≡ returned tt)
    ↔ IsRequest (codes "operator") global.reference
validate_iff_example = validate_iff (codes "operator") [] (world [])

run_command_refused_example :
    run_command formats images (codes "catalog" ∷ []) (world []) ≡ (returned 1, world [])
unfolding validate check_type bytes_eq ◌>>=◌
run_command_refused_example =
    run_command_refused formats images (codes "catalog" ∷ []) (world [])
      {e = codes "first argument must be either 'release' or 'operator'"} refl

-- A disk that is full.
abbrev full : Os
full = record memory { mkdir_all = λ s dir. (err (codes "no space left on device"), s) }

abbrev full_world : World full
full_world = record { os = []; opts = options; level = codes "info"; log = []; stdout = [] }

blocked : IsBlocked full_world (codes "no space left on device")
unfolding Blocks
blocked = inl refl

run_blocked_example :
    ((run (with_collect (pure tt)) full_world).0 ≡ failed (codes "no space left on device"))
    × (run (with_collect (pure tt)) full_world ≡ run (with_collect (fail (codes "x"))) full_world)
run_blocked_example =
    run_blocked (pure tt) (fail (codes "x")) (codes "no space left on device") full_world blocked

-- The state behind `Complete`.
abbrev completed_world : World memory
completed_world = record (world []) {
  opts =
      completed formats images (codes "operator") []
        (validate (codes "operator" ∷ []) (world [])).1;
}

validated_lists_one_example :
    ListsOne
      (ManifestService.service formats)
      (MirrorCopy.service images)
      (codes "operator")
      completed_world
unfolding validate check_type contains bytes_eq ◌>>=◌
validated_lists_one_example =
    validated_lists_one formats images (codes "operator") [] (world []) completed_world refl refl

run_command_collects_example :
    run_command formats images (codes "operator" ∷ []) (world [])
    ≡ ended (
        collect (ManifestService.service formats) (MirrorCopy.service images) (
          prepared
            (complete formats images
              (codes "operator" ∷ [])
              (validate (codes "operator" ∷ []) (world [])).1).1))
unfolding Makes validate check_type contains bytes_eq ◌>>=◌
run_command_collects_example =
    run_command_collects formats images (codes "operator") [] (world []) refl
      (refl, (refl, (refl, (refl, tt))))
