-- ===== src/Cli/Fetched.antt =====
-- Runs behind a run that listed the operators of an image.
use mathlib.Core.Path.{subst}
use golang_imageindex_list.Prelude.{
  Bytes, codes, List, [], ◌∷◌, ◌++◌, ◌≡◌, ◌∙◌, refl, sym, ap, append_assoc, bytes_eq,
}
use golang_imageindex_list.Strings.{join}
use golang_imageindex_list.Exec.{Result, ok, err, returned, ◌>>=◌}
use golang_imageindex_list.Exec.Laws.{sequence_returned}
use golang_imageindex_list.Os.{Os}
use golang_imageindex_list.World.{World}
use golang_imageindex_list.Options.{GlobalOptions}
use golang_imageindex_list.Manifest.Formats.{Formats}
use golang_imageindex_list.Manifest.Service as ManifestService
use golang_imageindex_list.Mirror.Images.{Images}
use golang_imageindex_list.Mirror.Copy as MirrorCopy
use golang_imageindex_list.Collector.Paths.{
  path, image_index_dir, operator_image_extract_dir, configs_label, operator_cache_dir, configs_dir,
}
use golang_imageindex_list.Collector.Listing.{operators_listed, listing_lem}
use golang_imageindex_list.Collector.Keeps.{operators_listed-os}
use golang_imageindex_list.Collector.Fetch.{fetch_operator}
use golang_imageindex_list.Collector.Collect.{
  unless_cached, list_operators, collect_operator, collect,
}
use golang_imageindex_list.Collector.Branch.{open_log, collect_is_operator}
use golang_imageindex_list.Cli.Executor.{working_dir, validate, complete, prepare, run}
use golang_imageindex_list.Cli.Main.{run_command}
use golang_imageindex_list.Cli.Unchanged.{validate-KeepsOptions, with_collect, prepare-KeepsOptions}
use golang_imageindex_list.Cli.Confined.{requested}
use golang_imageindex_list.Cli.Status.{run_command_status_iff, succeeds_state}
use golang_imageindex_list.Cli.Repeated.{
  Runs, IsLasting, IsThere, listed_dir, later_request_offline,
}

-- The listing of the operators is read below the directory of the extracted image.
configs_below :
    (g : GlobalOptions) → configs_dir g ≡ operator_cache_dir g ++ codes "/" ++ configs_label
unfolding configs_dir operator_cache_dir path join
configs_below g = simp append_assoc

module _ {O : Os}
    (listed_below : (s : O.State) (dir name : Bytes) (names : List Bytes)
      → O.read_dir s (dir ++ codes "/" ++ name) ≡ ok names
      → IsThere O dir s)
    (formats : Formats) (images : Images O) where
  operators-IsThere :
      (g : GlobalOptions) (r : Result (List Bytes)) (w : World O)
      → O.read_dir w.os (configs_dir g) ≡ r
      → (operators_listed formats g r w).0 ≡ returned tt
      → IsThere O (operator_cache_dir g) w.os
  unfolding operators_listed
  operators-IsThere g (ok names) w read done =
      listed_below w.os (operator_cache_dir g) configs_label names
        (ap (O.read_dir w.os) (sym (configs_below g)) ∙ read)
  operators-IsThere g (err e) w read done = absurd cc

  -- An operator image that was listed is there.
  listed-IsThere :
      (g : GlobalOptions) (w : World O)
      → (collect_operator (ManifestService.service formats) (MirrorCopy.service images) g w).0
        ≡ returned tt
      → IsThere O
          (operator_cache_dir g)
          (collect_operator (ManifestService.service formats) (MirrorCopy.service images) g w).1.os
  unfolding collect_operator
  listed-IsThere g w done =
      let fetch =
        unless_cached (operator_cache_dir g)
          (fetch_operator (ManifestService.service formats) (MirrorCopy.service images) g) in
      let (_, behind) =
        sequence_returned fetch (list_operators (ManifestService.service formats) g) w done in
      let now = (fetch w).1 in
      let listing = behind ∙ (listing_lem formats g now).0 in
      subst (IsThere O (operator_cache_dir g))
        (sym (ap (λ r. r.1.os) listing ∙ operators_listed-os formats g _ now))
        (operators-IsThere g _ now refl (sym (ap (λ r. r.0) listing) ∙ done))

  module _ (g : GlobalOptions) (index : g.image_index ≡ codes "operator") where
    collected-IsThere :
        (now : World O)
        → now.opts.global ≡ g
        → (collect (ManifestService.service formats) (MirrorCopy.service images) now).0
          ≡ returned tt
        → IsThere O
            (operator_cache_dir g)
            (collect (ManifestService.service formats) (MirrorCopy.service images) now).1.os
    collected-IsThere now same done =
        let is_operator =
          collect_is_operator (ManifestService.service formats) (MirrorCopy.service images) now
            (ap (λ o. o.image_index) same ∙ index)
          ∙ ap
              (λ o.
                collect_operator (ManifestService.service formats) (MirrorCopy.service images) o
                  (open_log now).1)
              same in
        subst (λ r. IsThere O (operator_cache_dir g) r.1.os) (sym is_operator)
          (listed-IsThere g (open_log now).1 (sym (ap (λ r. r.0) is_operator) ∙ done))

    run-IsThere :
        (w : World O)
        → w.opts.global ≡ g
        → (run
            (with_collect (collect (ManifestService.service formats) (MirrorCopy.service images)))
            w).0
          ≡ returned tt
        → IsThere O
            (operator_cache_dir g)
            (run
              (with_collect (collect (ManifestService.service formats) (MirrorCopy.service images)))
              w).1.os
    unfolding run
    run-IsThere w same done =
        let c = collect (ManifestService.service formats) (MirrorCopy.service images) in
        let (_, behind) = sequence_returned (prepare (with_collect c)) c w done in
        let now = (prepare (with_collect c) w).1 in
        subst (λ r. IsThere O (operator_cache_dir g) r.1.os) (sym behind)
          (collected-IsThere now (ap (λ o. o.global) ((prepare-KeepsOptions c).at w) ∙ same)
            (sym (ap (λ r. r.0) behind) ∙ done))

  module _ (args : List Bytes) (w : World O) where
    -- The directory that the operators of an image are extracted to is there behind a run that ends
    -- with status 0.
    served-IsThere :
        (run_command formats images (codes "operator" ∷ args) w).0 ≡ returned 0
        → IsThere O
            (operator_cache_dir (requested (codes "operator") w.opts.global))
            (run_command formats images (codes "operator" ∷ args) w).1.os
    unfolding complete ◌>>=◌
    served-IsThere done =
        let all = codes "operator" ∷ args in
        let v = (validate all w).1 in
        let succeeds = (run_command_status_iff formats images all w).0 done in
        let found : IsThere O (operator_cache_dir (requested (codes "operator") v.opts.global))
            ((complete formats images all >>= run) v).1.os =
          run-IsThere (requested (codes "operator") v.opts.global) refl
            (complete formats images all v).1 refl succeeds.finished in
        subst
          (λ o.
            IsThere O (operator_cache_dir (requested (codes "operator") o.global))
              (run_command formats images all w).1.os)
          ((validate-KeepsOptions all).at w)
          (subst
            (λ u. IsThere O (operator_cache_dir (requested (codes "operator") v.opts.global)) u.os)
            (sym (succeeds_state formats images all w done)) found)

same_dir :
    (g h : GlobalOptions)
    → g.reference ≡ h.reference
    → operator_cache_dir (requested (codes "operator") g)
      ≡ listed_dir (codes "operator") (requested (codes "operator") h)
unfolding operator_cache_dir bytes_eq
same_dir g h same =
    ap (λ r. path (working_dir ∷ operator_image_extract_dir ∷ image_index_dir r ∷ [])) same

module _ {O : Os}
    (listed_below : (s : O.State) (dir name : Bytes) (names : List Bytes)
      → O.read_dir s (dir ++ codes "/" ++ name) ≡ ok names
      → IsThere O dir s)
    (formats formats' : Formats) (images images' images'' : Images O) (args args' : List Bytes)
    (w later : World O) where
  abbrev ListedLater : O.State → Type 0
  ListedLater =
      IsThere O (listed_dir (codes "operator") (requested (codes "operator") later.opts.global))

  -- The operators of an image are fetched once: if a run ends with status 0, then a later run for the
  -- same reference, whatever runs of the command come between, does the same with any other image
  -- libraries. It is required that a directory is there if one below it can be read, and that the
  -- directory of the extracted image stays there when a directory or a file is made, a file is
  -- written, the logs are removed, or the image libraries of the runs between copy.
  pub fetched_once :
      (run_command formats images (codes "operator" ∷ args) w).0 ≡ returned 0
      → w.opts.global.reference ≡ later.opts.global.reference
      → IsLasting O ListedLater
      → Runs O ListedLater (run_command formats images (codes "operator" ∷ args) w).1.os later.os
      → run_command formats' images' (codes "operator" ∷ args') later
        ≡ run_command formats' images'' (codes "operator" ∷ args') later
  fetched_once done same lasting runs =
      later_request_offline formats' images' images'' (codes "operator") args' later _ lasting runs
        (subst (λ dir. IsThere O dir (run_command formats images (codes "operator" ∷ args) w).1.os)
          (same_dir w.opts.global later.opts.global same)
          (served-IsThere listed_below formats images args w done))
