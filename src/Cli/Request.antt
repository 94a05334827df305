-- ===== src/Cli/Request.antt =====
-- From the request that `Validate` lets through to the branch of the collector that serves it.
use golang_imageindex_list.Prelude.{ℕ, Bytes, codes, List, [], ◌∷◌, ◌≡◌, ap, ◌∙◌, refl}
use mathlib.Core.Path.{subst}
use golang_imageindex_list.Exec.{
  Exec, Outcome, returned, failed, panicked, caught, continue, try, ◌>>=◌,
}
use golang_imageindex_list.Os.{Os}
use golang_imageindex_list.World.{World, error}
use golang_imageindex_list.Log.Reports.{logged}
use golang_imageindex_list.Options.{CopyOptions}
use golang_imageindex_list.Manifest.Formats.{Formats}
use golang_imageindex_list.Manifest.Service as ManifestService
use golang_imageindex_list.Mirror.Images.{Images}
use golang_imageindex_list.Mirror.Copy as MirrorCopy
use golang_imageindex_list.Collector.Branch.{ListsOne, collects_operator, collects_release}
use golang_imageindex_list.Collector.Collect.{collect}
use golang_imageindex_list.Cli.Main.{after_run, after_validate, run_command}
use golang_imageindex_list.Cli.Prepared.{IsMade, prepared, run_prepared}
use golang_imageindex_list.Cli.Executor.{validate, complete}
use golang_imageindex_list.Cli.Validation.{IsRequest, operator, release, validate_iff}

-- How the command ends, by how the collector does.
unfoldable pub ended : {O : Os} → Outcome (Unit {0}) × World O → Outcome ℕ × World O
ended (returned _, now) = (returned 0, now)
ended (failed e, now) = (returned 1, logged ((error, (codes "%v ", e ∷ [])) ∷ []) now)
ended (panicked, now) = (panicked, now)

module _ {O : Os} where
  ended_of :
      (r : Outcome (Unit {0})) (now : World O)
      → continue (caught r now).0 after_run (caught r now).1 ≡ ended (r, now)
  unfolding after_run ended logged ◌>>=◌
  ended_of (returned _) now = refl
  ended_of (failed e) now = refl
  ended_of panicked now = refl

  pub ended_lem :
      (c : Exec (World O) (Unit {0})) (w : World O) → (try c >>= after_run) w ≡ ended (c w)
  unfolding ◌>>=◌
  ended_lem c w = ended_of (c w).0 (c w).1

module _ {O : Os} (formats : Formats) (images : Images O) (image_type : Bytes)
    (args : List Bytes) where
  -- The options that `Complete` leaves.
  abbrev pub completed : World O → CopyOptions
  completed w = (complete formats images (image_type ∷ args) w).1.opts

  pub completed-image_index : (w : World O) → (completed w).global.image_index ≡ image_type
  unfolding complete ◌>>=◌
  completed-image_index w = refl

  -- The collector of `Complete`, in whatever state has the options that `Complete` leaves.
  serves :
      {reference : Bytes}
      → IsRequest image_type reference
      → (w : World O) → w.opts.global.image_index ≡ image_type
      → ListsOne
          (ManifestService.service formats)
          (MirrorCopy.service images)
          w.opts.global.image_index
          w
  serves (operator is_operator _) w same = collects_operator _ _ w (same ∙ is_operator)
  serves (release is_release _) w same = collects_release _ _ w (same ∙ is_release)

  -- A request that `Validate` lets through is served by the branch of its image type alone: in a
  -- state with the options that `Complete` leaves, the collector creates its log file and then does
  -- what `collect_operator` does, or what `collect_release` does, and no more.
  pub validated_lists_one :
      (w now : World O)
      → (validate (image_type ∷ args) w).0 ≡ returned tt
      → now.opts ≡ completed (validate (image_type ∷ args) w).1
      → ListsOne (ManifestService.service formats) (MirrorCopy.service images) image_type now
  validated_lists_one w now valid same =
      let index =
        ap (λ o. o.global.image_index) same
        ∙ completed-image_index (validate (image_type ∷ args) w).1 in
      subst (λ t. ListsOne (ManifestService.service formats) (MirrorCopy.service images) t now)
        index (serves ((validate_iff image_type args w).0 valid) now index)

  after_valid :
      (r : Outcome (Unit {0})) (now : World O)
      → IsMade (complete formats images (image_type ∷ args) now).1
      → r ≡ returned tt
      → continue
          (caught r now).0
          (after_validate formats images (image_type ∷ args))
          (caught r now).1
        ≡ (try (collect (ManifestService.service formats) (MirrorCopy.service images))
              >>= after_run)
            (prepared (complete formats images (image_type ∷ args) now).1)
  unfolding after_validate complete ◌>>=◌
  after_valid (returned _) now made h = rw (
      run_prepared (collect (ManifestService.service formats) (MirrorCopy.service images))
        (complete formats images (image_type ∷ args) now).1 made)
  after_valid (failed e) now made h = cc
  after_valid panicked now made h = cc

  -- If the four directories of the run can be made, then a request that `Validate` lets through ends
  -- as the collector ends, in the state that `Complete` and the directories leave: with status 0 and
  -- nothing more logged if it returns, with status 1 and its error logged if it fails, and with a
  -- panic if it panics.
  pub run_command_collects :
      (w : World O)
      → (validate (image_type ∷ args) w).0 ≡ returned tt
      → IsMade (complete formats images (image_type ∷ args) (validate (image_type ∷ args) w).1).1
      → run_command formats images (image_type ∷ args) w
        ≡ ended (
            collect (ManifestService.service formats) (MirrorCopy.service images) (
              prepared
                (complete formats images (image_type ∷ args) (validate (image_type ∷ args) w).1).1))
  unfolding run_command ◌>>=◌
  run_command_collects w valid made =
      after_valid (validate (image_type ∷ args) w).0 (validate (image_type ∷ args) w).1 made valid
      ∙ ended_lem (collect (ManifestService.service formats) (MirrorCopy.service images)) _
