-- ===== src/Cli/Repeated.antt =====
-- Runs of the command that follow one another on the same disk.
use golang_imageindex_list.Prelude.{
  Bytes, codes, List, ◌∷◌, refl, ◌≡◌, ◌∙◌, ap, sym, false, bytes_eq, if◌then◌else◌,
}
use mathlib.Core.Path.{subst}
use golang_imageindex_list.Os.{Os}
use golang_imageindex_list.World.{World}
use golang_imageindex_list.Options.{GlobalOptions}
use golang_imageindex_list.Manifest.Formats.{Formats}
use golang_imageindex_list.Manifest.Layers.{is_missing}
use golang_imageindex_list.Manifest.Service as ManifestService
use golang_imageindex_list.Manifest.Untar.Frame.{KeptUnder}
use golang_imageindex_list.Mirror.Images.{Images}
use golang_imageindex_list.Mirror.Keeps.{KeepsImages}
use golang_imageindex_list.Mirror.Copy as MirrorCopy
use golang_imageindex_list.Collector.Paths.{
  operator_cache_dir, release_cache_dir, configs_dir, artifacts_dir,
}
use golang_imageindex_list.Collector.Listing.{operators_listed, release_listed}
use golang_imageindex_list.Manifest.Documents.{or_nothing}
use golang_imageindex_list.Manifest.Documents.Laws.{images_of}
use golang_imageindex_list.Collector.Collect.{collect, collect_operator, collect_release}
use golang_imageindex_list.Collector.Branch.{open_log, collect_is_operator, collect_is_release}
use golang_imageindex_list.Collector.Cached.{operator_cached_listed, release_cached_listed}
use golang_imageindex_list.Cli.Executor.{logs_dir}
use golang_imageindex_list.Cli.Main.{run_command}
use golang_imageindex_list.Cli.Validation.{IsRequest, operator, release}
use golang_imageindex_list.Cli.Kept.{IsPreparable, open_log-Keeps}
use golang_imageindex_list.Cli.Confined.{IsConfined, requested, run_command-Keeps}
use golang_imageindex_list.Cli.Same.{run_command_same}

-- The disks that runs of the command, each with its own arguments, options and libraries, lead to
-- from `t`; the image libraries keep `P`, wherever they copy to.
pub data Runs (O : Os) (P : O.State → Type 0) (t : O.State) : O.State → Type 1 where
  here : Runs O P t t
  next :
      (formats : Formats) (images : Images O)
      → ((dest : Bytes) → KeepsImages P images dest)
      → (image_type : Bytes) (args : List Bytes) (w : World O) (u : O.State) → Runs O P t w.os
      → u ≡ (run_command formats images (image_type ∷ args) w).1.os
      → Runs O P t u

-- `P` is kept by what makes or fills a directory or a file, and by the removal of the logs.
pub record IsLasting (O : Os) (P : O.State → Type 0) : Type 0 where
  pub mkdir_all : (s : O.State) (dir : Bytes) → P s → P (O.mkdir_all s dir).1
  pub create : (s : O.State) (file : Bytes) → P s → P (O.create s file).1
  pub copy : (s : O.State) (file content : Bytes) → P s → P (O.copy s file content).1
  pub remove_logs : (s : O.State) → P s → P (O.remove_all s logs_dir).1

module _ {O : Os} {P : O.State → Type 0} (lasting : IsLasting O P) where
  lasting-IsPreparable : (g : GlobalOptions) → IsPreparable O P g
  lasting-IsPreparable g = record {
    remove_logs = lasting.remove_logs;
    make_working = λ s. lasting.mkdir_all s _;
    make_logs = λ s. lasting.mkdir_all s _;
    make_releases = λ s. lasting.mkdir_all s _;
    make_operators = λ s. lasting.mkdir_all s _;
    make_log_file = λ s. lasting.create s _;
  }

  lasting-KeptUnder : (path text : Bytes) → KeptUnder O P path text
  lasting-KeptUnder path text = record {
    at = λ h m. record {
      mkdir_all = λ s. lasting.mkdir_all s _;
      create = λ s. lasting.create s _;
      copy = λ content s. lasting.copy s _ content;
    };
  }

  lasting-IsConfined :
      (images : Images O)
      → ((dest : Bytes) → KeepsImages P images dest)
      → (g : GlobalOptions) → IsConfined P images g
  lasting-IsConfined images kept g = record {
    preparing = lasting-IsPreparable g;
    for_operators = λ _. record {
      make_copy = λ s. lasting.mkdir_all s _;
      copy = kept _;
      extract = λ label. lasting-KeptUnder _ _;
    };
    for_release = λ _. record {
      make_copy = λ s. lasting.mkdir_all s _;
      copy = kept _;
      extract = lasting-KeptUnder _ _;
    };
  }

  -- What lasts holds on every disk that runs lead to.
  pub runs-Keep : {t u : O.State} → Runs O P t u → P t → P u
  runs-Keep here p = p
  runs-Keep (next formats images kept image_type args w u runs same) p = subst P (sym same) (
      run_command-Keeps formats image_type args w (lasting-IsConfined images kept _)
        (runs-Keep runs p))

-- The directory of the extracted image that a run with these options lists.
abbrev pub listed_dir : Bytes → GlobalOptions → Bytes
listed_dir image_type g =
    if bytes_eq image_type (codes "operator") then operator_cache_dir g else release_cache_dir g

-- `os.Stat` does not report that the path is missing.
abbrev pub IsThere : (O : Os) → Bytes → O.State → Type 0
IsThere O path s = is_missing (O.stat s path) ≡ false

listed_is_operator :
    (g : GlobalOptions) {image_type : Bytes}
    → image_type ≡ codes "operator"
    → listed_dir image_type g ≡ operator_cache_dir g
unfolding bytes_eq
listed_is_operator g is_operator = rw is_operator refl

listed_is_release :
    (g : GlobalOptions) {image_type : Bytes}
    → image_type ≡ codes "release"
    → listed_dir image_type g ≡ release_cache_dir g
unfolding bytes_eq
listed_is_release g is_release = rw is_release refl

module _ {O : Os} (formats : Formats) (images : Images O) (g : GlobalOptions) where
  -- What the collector does if the directory that it lists is there, without the image libraries.
  operator_offline :
      (now : World O)
      → now.opts.global ≡ g
      → g.image_index ≡ codes "operator"
      → IsThere O (operator_cache_dir g) (open_log now).1.os
      → collect (ManifestService.service formats) (MirrorCopy.service images) now
        ≡ operators_listed formats g
            (O.read_dir (open_log now).1.os (configs_dir g))
            (open_log now).1
  operator_offline now same index there =
      collect_is_operator (ManifestService.service formats) (MirrorCopy.service images) now
        (ap (λ o. o.image_index) same ∙ index)
      ∙ (ap
            (λ o.
              collect_operator (ManifestService.service formats) (MirrorCopy.service images) o
                (open_log now).1)
            same
          ∙ operator_cached_listed formats (MirrorCopy.service images) g (open_log now).1 there)

  release_offline :
      (now : World O)
      → now.opts.global ≡ g
      → g.image_index ≡ codes "release"
      → IsThere O (release_cache_dir g) (open_log now).1.os
      → collect (ManifestService.service formats) (MirrorCopy.service images) now
        ≡ release_listed g
            (images_of (
              formats.unmarshal_release
                (or_nothing (O.read_file (open_log now).1.os (artifacts_dir g)))))
            (open_log now).1
  release_offline now same index there =
      collect_is_release (ManifestService.service formats) (MirrorCopy.service images) now
        (ap (λ o. o.image_index) same ∙ index)
      ∙ (ap
            (λ o.
              collect_release (ManifestService.service formats) (MirrorCopy.service images) o
                (open_log now).1)
            same
          ∙ release_cached_listed formats (MirrorCopy.service images) g (open_log now).1 there)

module _ {O : Os} (formats : Formats) (images images' : Images O) (g : GlobalOptions) where
  collect_offline :
      {image_type reference : Bytes}
      → IsRequest image_type reference
      → g.image_index ≡ image_type
      → IsPreparable O (IsThere O (listed_dir image_type g)) g
      → (now : World O) → now.opts.global ≡ g
      → IsThere O (listed_dir image_type g) now.os
      → collect (ManifestService.service formats) (MirrorCopy.service images) now
        ≡ collect (ManifestService.service formats) (MirrorCopy.service images') now
  collect_offline (operator is_operator _) index k now same there =
      let listed =
        subst (λ dir. IsThere O dir (open_log now).1.os) (listed_is_operator g is_operator)
          ((open_log-Keeps k).at now there) in
      operator_offline formats images g now same (index ∙ is_operator) listed
      ∙ sym (operator_offline formats images' g now same (index ∙ is_operator) listed)
  collect_offline (release is_release _) index k now same there =
      let listed =
        subst (λ dir. IsThere O dir (open_log now).1.os) (listed_is_release g is_release)
          ((open_log-Keeps k).at now there) in
      release_offline formats images g now same (index ∙ is_release) listed
      ∙ sym (release_offline formats images' g now same (index ∙ is_release) listed)

module _ {O : Os} (formats : Formats) (images images' : Images O) (image_type : Bytes)
    (args : List Bytes) (w : World O) where
  abbrev There : O.State → Type 0
  There = IsThere O (listed_dir image_type (requested image_type w.opts.global))

  -- Once the directory of the extracted image that a request names is there, every later run of the
  -- request, whatever runs of the command come between, does the same with any other image libraries:
  -- nothing is fetched again. It is required that the directory stays there when a directory or a
  -- file is made, a file is written, the logs are removed, or the image libraries of the runs between
  -- copy.
  pub later_request_offline :
      (t : O.State)
      → IsLasting O There
      → Runs O There t w.os
      → There t
      → run_command formats images (image_type ∷ args) w
        ≡ run_command formats images' (image_type ∷ args) w
  later_request_offline t lasting runs p =
      run_command_same formats images images' image_type args There w
        (lasting-IsPreparable lasting _) (runs-Keep lasting runs p)
        (λ request now.
          collect_offline formats images images' _ request refl (lasting-IsPreparable lasting _)
            now)
