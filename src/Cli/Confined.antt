-- ===== src/Cli/Confined.antt =====
-- Where a run of the command can write.
use mathlib.Core.Path.{subst}
use golang_imageindex_list.Prelude.{Bytes, codes, List, ◌∷◌, ◌++◌, ◌≡◌, refl, sym, ap, ◌∙◌}
use golang_imageindex_list.Exec.{
  ok, err, Outcome, returned, failed, panicked, continue, caught, pure, try, ◌>>=◌,
}
use golang_imageindex_list.Os.{Os}
use golang_imageindex_list.World.{World}
use golang_imageindex_list.Options.{GlobalOptions}
use golang_imageindex_list.Manifest.Formats.{Formats}
use golang_imageindex_list.Manifest.Untar.{trim_label}
use golang_imageindex_list.Manifest.Untar.Frame.{KeptUnder}
use golang_imageindex_list.Mirror.Images.{Images}
use golang_imageindex_list.Mirror.Keeps.{KeepsImages, copy-Keeps}
use golang_imageindex_list.Mirror.Copy as MirrorCopy
use golang_imageindex_list.Manifest.Service as ManifestService
use golang_imageindex_list.Collector.Paths.{
  oci_protocol_trimmed, operator_copy_dir, operator_cache_dir, release_copy_dir, release_to_dir,
  release_manifest,
}
use golang_imageindex_list.Collector.Collect.{collect}
use golang_imageindex_list.Collector.Branch.{open_log, collect_is_operator, collect_is_release}
use golang_imageindex_list.Collector.Keeps.{
  IsUntouched, IsOperatorUntouched, collect_operator-Keeps, collect_release-Keeps,
}
use golang_imageindex_list.Cli.Executor.{working_dir, validate, complete, run}
use golang_imageindex_list.Cli.Main.{after_run, after_validate, run_command}
use golang_imageindex_list.Cli.Validation.{IsRequest, operator, release, validate_iff}
use golang_imageindex_list.Cli.Unchanged.{validate-KeepsOptions, with_collect, prepare-KeepsOptions}
use golang_imageindex_list.Cli.Kept.{
  IsPreparable, validate-Keeps, after_run-Keeps, behind_options, open_log-Keeps, prepare-Keeps,
}

-- `P` is kept where a request for operators writes to: the image is copied to its directory, and its
-- layers are extracted below another one, under names that contain the label of the image.
pub record AreOperatorsConfined {O : Os} (P : O.State → Type 0) (images : Images O)
    (g : GlobalOptions) : Type 0 where
  pub make_copy : (s : O.State) → P s → P (O.mkdir_all s (operator_copy_dir g)).1
  pub copy : KeepsImages P images (oci_protocol_trimmed ++ operator_copy_dir g)
  pub extract : (label : Bytes) → KeptUnder O P (operator_cache_dir g) (trim_label label)

-- `P` is kept where a request for a release writes to.
pub record IsReleaseConfined {O : Os} (P : O.State → Type 0) (images : Images O) (g : GlobalOptions)
    : Type 0 where
  pub make_copy : (s : O.State) → P s → P (O.mkdir_all s (release_copy_dir g)).1
  pub copy : KeepsImages P images (oci_protocol_trimmed ++ release_copy_dir g)
  pub extract : KeptUnder O P (release_to_dir g) (trim_label release_manifest)

-- `P` is kept at each place that a run with these options writes to, by the image type.
pub record IsConfined {O : Os} (P : O.State → Type 0) (images : Images O) (g : GlobalOptions)
    : Type 0 where
  pub preparing : IsPreparable O P g
  pub for_operators : g.image_index ≡ codes "operator" → AreOperatorsConfined P images g
  pub for_release : g.image_index ≡ codes "release" → IsReleaseConfined P images g

module _ {O : Os} {P : O.State → Type 0} {images : Images O} {g : GlobalOptions} where
  operator-IsUntouched :
      AreOperatorsConfined P images g → IsOperatorUntouched P (MirrorCopy.service images) g
  operator-IsUntouched k = record {
    copy_dir = k.make_copy;
    run = copy-Keeps k.copy _;
    layers = k.extract;
  }

  pub release-IsUntouched :
      IsReleaseConfined P images g → IsUntouched P (MirrorCopy.service images) g
  release-IsUntouched k = record {
    copy_dir = k.make_copy;
    run = copy-Keeps k.copy _;
    layers = k.extract;
  }

module _ {O : Os} {P : O.State → Type 0} {images : Images O} {g : GlobalOptions}
    (k : IsConfined P images g) where
  collect-Keeps :
      (formats : Formats) {image_type reference : Bytes}
      → IsRequest image_type reference
      → (w : World O) → w.opts.global ≡ g
      → g.image_index ≡ image_type
      → P w.os
      → P (collect (ManifestService.service formats) (MirrorCopy.service images) w).1.os
  collect-Keeps formats (operator is_operator _) w same index p =
      subst (λ now. P now.1.os)
        (sym (
          collect_is_operator (ManifestService.service formats) (MirrorCopy.service images) w
            (ap (λ o. o.image_index) same ∙ (index ∙ is_operator))))
        ((collect_operator-Keeps formats (MirrorCopy.service images) w.opts.global (
            subst (IsOperatorUntouched P (MirrorCopy.service images)) (sym same)
              (operator-IsUntouched (k.for_operators (index ∙ is_operator))))).at
          (open_log w).1 ((open_log-Keeps k.preparing).at w p))
  collect-Keeps formats (release is_release _) w same index p =
      subst (λ now. P now.1.os)
        (sym (
          collect_is_release (ManifestService.service formats) (MirrorCopy.service images) w
            (ap (λ o. o.image_index) same ∙ (index ∙ is_release))))
        ((collect_release-Keeps formats (MirrorCopy.service images) w.opts.global (
            subst (IsUntouched P (MirrorCopy.service images)) (sym same)
              (release-IsUntouched (k.for_release (index ∙ is_release))))).at
          (open_log w).1 ((open_log-Keeps k.preparing).at w p))

  run-Keeps :
      (formats : Formats) {image_type reference : Bytes}
      → IsRequest image_type reference
      → (w : World O) → w.opts.global ≡ g
      → g.image_index ≡ image_type
      → P w.os
      → P
          (run
            (with_collect (collect (ManifestService.service formats) (MirrorCopy.service images)))
            w).1.os
  unfolding run
  run-Keeps formats request w same index p =
      behind_options P _ _ (prepare-KeepsOptions _) w
        (prepare-Keeps k.preparing _ w (ap (λ o. o.dir) same) p)
        (λ _ now left. collect-Keeps formats request now (ap (λ o. o.global) left ∙ same) index)

-- The options of a run, once they are completed.
abbrev pub requested : Bytes → GlobalOptions → GlobalOptions
requested image_type g = record g { dir = working_dir; image_index = image_type }

module _ {O : Os} (P : O.State → Type 0) where
  ended-Keeps :
      (r : Outcome (Unit {0})) (now : World O)
      → P now.os
      → P (continue (caught r now).0 after_run (caught r now).1).1.os
  unfolding after_run pure
  ended-Keeps (returned _) now p = p
  ended-Keeps (failed e) now p = (after_run-Keeps {P = P} (err e)).at now p
  ended-Keeps panicked now p = p

module _ {O : Os} (P : O.State → Type 0) (images : Images O) (formats : Formats)
    (image_type : Bytes) (args : List Bytes) where
  outcome-Keeps :
      (r : Outcome (Unit {0})) (now : World O)
      → P now.os
      → (r ≡ returned tt → P (after_validate formats images (image_type ∷ args) (ok tt) now).1.os)
      → P
          (continue
            (caught r now).0
            (after_validate formats images (image_type ∷ args))
            (caught r now).1).1.os
  unfolding after_validate pure
  outcome-Keeps (returned _) now p h = h refl
  outcome-Keeps (failed e) now p h = p
  outcome-Keeps panicked now p h = p

module _ {O : Os} {P : O.State → Type 0} {images : Images O} (formats : Formats)
    (image_type : Bytes) (args : List Bytes) where
  valid-Keeps :
      {reference : Bytes}
      → IsRequest image_type reference
      → (w : World O) → IsConfined P images (requested image_type w.opts.global)
      → P w.os
      → P (after_validate formats images (image_type ∷ args) (ok tt) w).1.os
  unfolding after_validate complete try ◌>>=◌
  valid-Keeps request w k p =
      let now = (complete formats images (image_type ∷ args) w).1 in
      let ran =
        run (with_collect (collect (ManifestService.service formats) (MirrorCopy.service images)))
          now in
      ended-Keeps P ran.0 ran.1 (run-Keeps k formats request now refl refl p)

  -- Given a first argument, whatever holds of the file system holds after the run, however that ends,
  -- if it is kept at each place that the request names: where the logs are removed, the four
  -- directories and the log file are made, the image libraries copy to, and the layers are extracted,
  -- under names that contain the label. The request need not be valid.
  pub run_command-Keeps :
      (w : World O)
      → IsConfined P images (requested image_type w.opts.global)
      → P w.os
      → P (run_command formats images (image_type ∷ args) w).1.os
  unfolding run_command ◌>>=◌
  run_command-Keeps w k p =
      outcome-Keeps P images formats image_type args (validate (image_type ∷ args) w).0
        (validate (image_type ∷ args) w).1 ((validate-Keeps {P = P} (image_type ∷ args)).at w p)
        (λ valid.
          valid-Keeps ((validate_iff image_type args w).0 valid) _
            (subst
              (λ o.
                IsConfined P images
                  (record o.global { dir = working_dir; image_index = image_type }))
              (sym ((validate-KeepsOptions (image_type ∷ args)).at w)) k)
            ((validate-Keeps {P = P} (image_type ∷ args)).at w p))
