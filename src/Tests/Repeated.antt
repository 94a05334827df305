-- ===== src/Tests/Repeated.antt =====
-- The theorems about the disk of a run, and of runs that follow one another, in memory.
use golang_imageindex_list.Prelude.{ap, ◌∙◌, Bytes, codes, [], ◌∷◌, ◌≡◌, refl, bytes_eq, false}
use golang_imageindex_list.Strings.{contains, has_prefix}
use golang_imageindex_list.Exec.{ok, fail, for_each, ◌>>=◌}
use golang_imageindex_list.Os.{Os}
use golang_imageindex_list.World.{World, os_call, os_read}
use golang_imageindex_list.Log.Keeps.{Keeps-pure}
use golang_imageindex_list.Mirror.Images.{Images}
use golang_imageindex_list.Mirror.Keeps.{KeepsImages}
use golang_imageindex_list.Collector.Paths.{
  operator_cache_dir, configs_dir, operator_copy_dir, release_copy_dir, release_to_dir,
}
use golang_imageindex_list.Cli.Executor.{
  logs_dir, validate, check_type, complete, run, prepare, make_logged, or_log,
}
use golang_imageindex_list.Collector.Collect.{
  collect, collect_operator, unless_cached, log_failure, list_operators, list_operator,
}
use golang_imageindex_list.Manifest.Catalogs.{
  list_catalogs, read_operator_catalog, list_object, list_entry,
}
use golang_imageindex_list.Cli.Fetched.{fetched_once}
use golang_imageindex_list.Cli.Main.{run_command, after_validate, after_run}
use golang_imageindex_list.Cli.Confined.{IsConfined, requested, run_command-Keeps}
use golang_imageindex_list.Cli.Repeated.{
  Runs, here, next, IsLasting, IsThere, listed_dir, later_request_offline,
}
use golang_imageindex_list.Tests.Memory.{Disk, memory, file, dir, bytes_of, lookup-without}
use golang_imageindex_list.Tests.Tree.{tree, inhabited, tree-IsLasting, tree_listed_below}
use golang_imageindex_list.Tests.Values.{
  formats, images, libraries, options, world, release_options,
}

module _ {O : Os} (P : O.State → Type 0) where
  pub libraries-Keep : (dest : Bytes) → KeepsImages P (libraries O) dest
  libraries-Keep dest = record {
    warn = λ message. Keeps-pure tt;
    default_policy = Keeps-pure false;
    policy_from_file = λ path. Keeps-pure false;
    new_policy_context = λ policy. Keeps-pure policy;
    destroy = λ context. Keeps-pure tt;
    copy_image = λ c context dest_ref src_ref opts parsed. Keeps-pure [];
    if_necessary = λ c operation times k. k;
  }

-- A file outside the directories of the program, and an operator image that is there.
abbrev before : World memory
before = world (
    (codes "etc/passwd", file (codes "root"))
    ∷ (codes "working-dir/hold-operators/operator/1", dir)
    ∷ [])

abbrev Intact : Disk → Type 0
Intact s = memory.read_file s (codes "etc/passwd") ≡ ok (codes "root")

Intact-IsConfined : IsConfined Intact images (requested (codes "operator") before.opts.global)
unfolding bytes_eq has_prefix operator_cache_dir operator_copy_dir release_copy_dir release_to_dir
Intact-IsConfined = record {
  preparing = record {
    remove_logs = λ s p. ap bytes_of (lookup-without logs_dir (codes "etc/passwd") s refl) ∙ p;
    make_working = λ s p. p;
    make_logs = λ s p. p;
    make_releases = λ s p. p;
    make_operators = λ s p. p;
    make_log_file = λ s p. p;
  };
  for_operators = λ _. record {
    make_copy = λ s p. p;
    copy = libraries-Keep Intact _;
    extract = λ label. record {
      at = λ h m. record { mkdir_all = λ s p. p; create = λ s p. p; copy = λ content s p. p };
    };
  };
  for_release = λ is_release. absurd (cc);
}

run_command-Keeps_example : Intact (run_command formats images (codes "operator" ∷ []) before).1.os
unfolding bytes_eq
run_command-Keeps_example =
    run_command-Keeps formats (codes "operator") [] before Intact-IsConfined refl

-- An operator image that is there, with one operator.
abbrev listing : World tree
listing = record {
  os = (codes "working-dir/hold-operators/operator/1//configs/op", dir) ∷ [];
  opts = options;
  level = codes "info";
  log = [];
  stdout = [];
}

abbrev idle : Images tree
idle = libraries tree

-- The disk that a run leads to, with the options of another request.
abbrev released : World tree
released = record listing {
  os = (run_command formats idle (codes "operator" ∷ []) listing).1.os;
  opts = record listing.opts { global = release_options };
}

abbrev later : World tree
later = record listing { os = (run_command formats idle (codes "release" ∷ []) released).1.os }

abbrev operator_dir : Bytes
operator_dir = listed_dir (codes "operator") (requested (codes "operator") later.opts.global)

abbrev There : Disk → Type 0
There = IsThere tree operator_dir

behind_release : Runs tree There released.os later.os
behind_release = next formats idle (libraries-Keep There) (codes "release") [] released _ here refl

runs : Runs tree There listing.os later.os
runs =
    next formats idle (libraries-Keep There) (codes "release") [] released _
      (next formats idle (libraries-Keep There) (codes "operator") [] listing _ here refl) refl

-- Libraries that refuse to copy.
abbrev broken_libraries : Images tree
broken_libraries = record idle {
  copy_image = λ c context dest src opts. fail (codes "unauthorized");
}

There-IsLasting : IsLasting tree There
unfolding operator_cache_dir bytes_eq
There-IsLasting = tree-IsLasting b'w' _ refl

later_request_offline_example :
    run_command formats idle (codes "operator" ∷ []) later
    ≡ run_command formats broken_libraries (codes "operator" ∷ []) later
unfolding bytes_eq has_prefix operator_cache_dir inhabited
later_request_offline_example =
    later_request_offline formats idle broken_libraries (codes "operator") [] later listing.os
      There-IsLasting runs refl

fetched_once_example :
    run_command formats idle (codes "operator" ∷ []) later
    ≡ run_command formats broken_libraries (codes "operator" ∷ []) later
unfolding bytes_eq has_prefix inhabited contains operator_cache_dir configs_dir validate check_type
    complete run prepare make_logged collect collect_operator unless_cached log_failure
    list_operators list_operator list_catalogs read_operator_catalog for_each list_object list_entry
    run_command after_validate after_run or_log os_call os_read ◌>>=◌
fetched_once_example =
    fetched_once tree_listed_below formats formats idle idle broken_libraries [] [] listing later
      refl refl There-IsLasting behind_release
