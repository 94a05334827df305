-- ===== src/Cli/Same.antt =====
-- Two runs of the command that collect the same.
use golang_imageindex_list.Prelude.{Bytes, codes, List, ◌∷◌, ◌≡◌, ◌∙◌, ap, refl}
use golang_imageindex_list.Exec.{
  ok, Outcome, returned, failed, panicked, Exec, continue, caught, try, ◌>>=◌,
}
use golang_imageindex_list.Exec.Laws.{bind_same}
use golang_imageindex_list.Os.{Os}
use golang_imageindex_list.World.{World}
use golang_imageindex_list.Manifest.Formats.{Formats}
use golang_imageindex_list.Manifest.Service as ManifestService
use golang_imageindex_list.Mirror.Images.{Images}
use golang_imageindex_list.Mirror.Copy as MirrorCopy
use golang_imageindex_list.Collector.Collect.{collect}
use golang_imageindex_list.Cli.Executor.{validate, complete, make_logged, prepare, run}
use golang_imageindex_list.Cli.Main.{after_run, after_validate, run_command}
use golang_imageindex_list.Cli.Validation.{IsRequest, validate_iff}
use golang_imageindex_list.Cli.Unchanged.{validate-KeepsOptions, with_collect, prepare-KeepsOptions}
use golang_imageindex_list.Cli.Kept.{IsPreparable, validate-Keeps, prepare-Keeps}
use golang_imageindex_list.Cli.Confined.{requested}
use golang_imageindex_list.Options.{GlobalOptions}
use mathlib.Core.Path.{subst}
use golang_imageindex_list.Prelude.{sym}

module _ {O : Os} {P : O.State → Type 0} {g : GlobalOptions} (k : IsPreparable O P g) where
  -- Two collectors that do the same under some options, on the disks that are prepared, are run with
  -- the same effect.
  run_same :
      (c c' : Exec (World O) (Unit {0})) (w : World O)
      → w.opts.global ≡ g
      → P w.os
      → ((now : World O) → now.opts.global ≡ g → P now.os → c now ≡ c' now)
      → run (with_collect c) w ≡ run (with_collect c') w
  unfolding run prepare make_logged
  run_same c c' w given p same =
      bind_same (prepare (with_collect c)) (λ _. c) (λ _. c') w
        (λ _.
          same _ (ap (λ o. o.global) ((prepare-KeepsOptions c).at w) ∙ given)
            (prepare-Keeps k c w (ap (λ o. o.dir) given) p))

-- The collector does the same with both image libraries, under these options and on the disks with
-- the property.
abbrev Agree :
    {O : Os} → Formats → Images O → Images O → (O.State → Type 0) → GlobalOptions → Type 0
Agree {O} formats images images' P g =
    (now : World O)
    → now.opts.global ≡ g
    → P now.os
    → collect (ManifestService.service formats) (MirrorCopy.service images) now
      ≡ collect (ManifestService.service formats) (MirrorCopy.service images') now

module _ {O : Os} (formats : Formats) (images images' : Images O) (image_type : Bytes)
    (args : List Bytes) where
  outcome_same :
      (r : Outcome (Unit {0})) (now : World O)
      → (r ≡ returned tt
          → after_validate formats images (image_type ∷ args) (ok tt) now
            ≡ after_validate formats images' (image_type ∷ args) (ok tt) now)
      → continue
          (caught r now).0
          (after_validate formats images (image_type ∷ args))
          (caught r now).1
        ≡ continue
            (caught r now).0
            (after_validate formats images' (image_type ∷ args))
            (caught r now).1
  unfolding after_validate
  outcome_same (returned _) now h = h refl
  outcome_same (failed e) now h = refl
  outcome_same panicked now h = refl

  module _ (P : O.State → Type 0) where
    after_valid_same :
        (w : World O)
        → IsPreparable O P (requested image_type w.opts.global)
        → P w.os
        → Agree formats images images' P (requested image_type w.opts.global)
        → after_validate formats images (image_type ∷ args) (ok tt) w
          ≡ after_validate formats images' (image_type ∷ args) (ok tt) w
    unfolding after_validate complete try ◌>>=◌
    after_valid_same w k p same =
        ap (λ r. continue (caught r.0 r.1).0 after_run (caught r.0 r.1).1)
          (run_same k _ _ _ refl p same)

    -- Two image libraries with which the collector does the same, on every disk that is prepared for
    -- a valid request, make no difference to the command.
    pub run_command_same :
        (w : World O)
        → IsPreparable O P (requested image_type w.opts.global)
        → P w.os
        → (IsRequest image_type w.opts.global.reference
            → Agree formats images images' P (requested image_type w.opts.global))
        → run_command formats images (image_type ∷ args) w
          ≡ run_command formats images' (image_type ∷ args) w
    unfolding run_command ◌>>=◌
    run_command_same w k p same =
        outcome_same (validate (image_type ∷ args) w).0 (validate (image_type ∷ args) w).1 (λ valid.
          after_valid_same (validate (image_type ∷ args) w).1
            (subst
              (λ o.
                IsPreparable O P
                  (record o.global { dir = codes "working-dir"; image_index = image_type }))
              (sym ((validate-KeepsOptions (image_type ∷ args)).at w)) k)
            ((validate-Keeps {P = P} (image_type ∷ args)).at w p)
            (subst (λ o. Agree formats images images' P (requested image_type o.global))
              (sym ((validate-KeepsOptions (image_type ∷ args)).at w))
              (same ((validate_iff image_type args w).0 valid))))
