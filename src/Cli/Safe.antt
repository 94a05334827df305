-- ===== src/Cli/Safe.antt =====
-- The command as a whole, from the arguments to the copy and the listing.
use mathlib.Core.Path.{subst}
use golang_imageindex_list.Prelude.{
  Bytes, codes, List, [], ◌∷◌, not, bytes_eq, ◌≡◌, ◌≢◌, ◌∙◌, ◌⊎◌, inl, inr, ap, refl, sym,
}
use golang_imageindex_list.Exec.{
  Result, ok, err, deref, Exec, Outcome, returned, failed, panicked, caught, continue, ◌>>=◌,
}
use golang_imageindex_list.Exec.Safe.{
  IsSafe, IsSafe-pure, IsSafe-fail, IsSafe-gets, IsSafe-modify, IsSafe-try, IsSafe-if, IsSafe-bind,
  bind_safe_at,
}
use golang_imageindex_list.Strings.{contains}
use golang_imageindex_list.Os.{Os}
use golang_imageindex_list.World.{World}
use golang_imageindex_list.World.Safe.{IsSafe-os_call}
use golang_imageindex_list.Manifest.Formats.{Formats}
use golang_imageindex_list.Manifest.Service as ManifestService
use golang_imageindex_list.Mirror.Images.{Images}
use golang_imageindex_list.Mirror.Copy as MirrorCopy
use golang_imageindex_list.Mirror.Safe.{IsSafeImages, copy-IsSafe}
use golang_imageindex_list.Collector.Collect.{collect}
use golang_imageindex_list.Collector.Trust.{CopiesLayout}
use golang_imageindex_list.Collector.Safe.{collect_safe}
use golang_imageindex_list.Cli.Executor.{
  check_type, validate, complete, or_log, make_logged, prepare, run,
}
use golang_imageindex_list.Cli.Main.{after_validate, run_command}
use golang_imageindex_list.Cli.Unchanged.{with_collect, prepare-KeepsOptions}
use golang_imageindex_list.Cli.Validation.{IsRequest, operator, release, validate_iff}
use golang_imageindex_list.Cli.Request.{ended, ended_lem, completed-image_index}

module _ {O : Os} where
  check_type-IsSafe :
      (image_type reference : Bytes) → IsSafe (check_type {O = O} image_type reference)
  unfolding check_type
  check_type-IsSafe image_type reference =
      IsSafe-if (bytes_eq image_type (codes "operator")) _ _
        (λ _.
          IsSafe-if (not (contains reference (codes "operator"))) _ _ (λ _. IsSafe-fail _)
            (λ _. IsSafe-pure tt))
        (λ _.
          IsSafe-if (bytes_eq image_type (codes "release")) _ _
            (λ _.
              IsSafe-if (not (contains reference (codes "release"))) _ _ (λ _. IsSafe-fail _)
                (λ _. IsSafe-pure tt))
            (λ _. IsSafe-fail _))

  validate-IsSafe :
      (image_type : Bytes) (args : List Bytes) → IsSafe (validate {O = O} (image_type ∷ args))
  unfolding validate deref
  validate-IsSafe image_type args = IsSafe-bind _ _ (IsSafe-gets _) (λ reference.
      IsSafe-if (bytes_eq reference []) _ _ (λ _. IsSafe-fail _)
        (λ _.
          IsSafe-bind _ _ (IsSafe-pure image_type)
            (λ t. IsSafe-bind _ _ (check_type-IsSafe t reference) (λ _. IsSafe-modify _))))

  or_log-IsSafe : (r : Result (Unit {0})) → IsSafe (or_log {O = O} r)
  unfolding or_log
  or_log-IsSafe (ok _) = IsSafe-pure tt
  or_log-IsSafe (err e) = IsSafe-bind _ _ (IsSafe-modify _) (λ _. IsSafe-fail e)

  module _ (c : Exec (World O) (Unit {0})) where
    make_logged-IsSafe : (dir : Bytes) → IsSafe (make_logged (with_collect c) dir)
    unfolding make_logged
    make_logged-IsSafe dir = IsSafe-bind _ _ (IsSafe-try _ (IsSafe-os_call _)) or_log-IsSafe

    prepare-IsSafe : IsSafe (prepare (with_collect c))
    unfolding prepare
    prepare-IsSafe = IsSafe-bind _ _ (IsSafe-try _ (IsSafe-os_call _)) (λ _.
        IsSafe-bind _ _ (make_logged-IsSafe _) (λ _. IsSafe-bind _ _ (make_logged-IsSafe _) (λ _.
          IsSafe-bind _ _ (IsSafe-gets _) (λ dir. IsSafe-bind _ _ (IsSafe-modify _) (λ _.
            IsSafe-bind _ _ (make_logged-IsSafe _)
              (λ _. IsSafe-bind _ _ (IsSafe-modify _) (λ _. make_logged-IsSafe _)))))))

  ended_safe :
      (r : Outcome (Unit {0})) (now : World O) → r ≢ panicked → (ended (r, now)).0 ≢ panicked
  unfolding ended
  ended_safe (returned _) now h = λ p. cc
  ended_safe (failed e) now h = λ p. cc
  ended_safe panicked now h = λ p. h refl

module _ {O : Os} (formats : Formats) (images : Images O) (image_type : Bytes)
    (args : List Bytes) where
  abbrev collector : Exec (World O) (Unit {0})
  collector = collect (ManifestService.service formats) (MirrorCopy.service images)

  -- The state behind `Complete`.
  abbrev configured : World O → World O
  configured now = (complete formats images (image_type ∷ args) now).1

  -- The state in which `Run` calls the collector, if it does.
  abbrev pub calling : World O → World O
  calling w = (prepare (with_collect collector) (configured (validate (image_type ∷ args) w).1)).1

  calling-image_index : (w : World O) → (calling w).opts.global.image_index ≡ image_type
  calling-image_index w =
      ap (λ o. o.global.image_index) ((prepare-KeepsOptions collector).at (configured _))
      ∙ completed-image_index formats images image_type args (validate (image_type ∷ args) w).1

  run_safe :
      (s : World O)
      → (collector (prepare (with_collect collector) s).1).0 ≢ panicked
      → (run (with_collect collector) s).0 ≢ panicked
  unfolding run
  run_safe s h =
      bind_safe_at (prepare (with_collect collector)) (λ _. collector) s
        ((prepare-IsSafe collector).at s) (λ _ _. h)

  after_valid_safe :
      (r : Outcome (Unit {0})) (now : World O)
      → r ≢ panicked
      → (r ≡ returned tt → (run (with_collect collector) (configured now)).0 ≢ panicked)
      → (continue
          (caught r now).0
          (after_validate formats images (image_type ∷ args))
          (caught r now).1).0
        ≢ panicked
  unfolding after_validate complete ◌>>=◌
  after_valid_safe (returned _) now h k =
      subst (λ x. x.0 ≢ panicked) (sym (ended_lem (run (with_collect collector)) (configured now)))
        (ended_safe (run (with_collect collector) (configured now)).0
          (run (with_collect collector) (configured now)).1 (k refl))
  after_valid_safe (failed e) now h k = λ p. cc
  after_valid_safe panicked now h k = λ p. h refl

  requested_type :
      {reference : Bytes} (w : World O)
      → IsRequest image_type reference
      → ((calling w).opts.global.image_index ≡ codes "operator")
        ⊎ ((calling w).opts.global.image_index ≡ codes "release")
  requested_type w (operator is_operator _) = inl (calling-image_index w ∙ is_operator)
  requested_type w (release is_release _) = inr (calling-image_index w ∙ is_release)

  -- With at least one argument and image libraries that do not panic, the command does not panic,
  -- whatever fails on the way, if the copy that it asks for leaves a layout, where it succeeds.
  pub run_command_safe :
      IsSafeImages images
      → (w : World O) → CopiesLayout formats (MirrorCopy.service images) (calling w)
      → (run_command formats images (image_type ∷ args) w).0 ≢ panicked
  unfolding run_command ◌>>=◌
  run_command_safe libraries w copies =
      after_valid_safe (validate (image_type ∷ args) w).0 (validate (image_type ∷ args) w).1
        ((validate-IsSafe image_type args).at w)
        (λ valid. run_safe (configured (validate (image_type ∷ args) w).1) (
          collect_safe formats (record { run = λ src dest mode. copy-IsSafe libraries src dest })
            (calling w) copies (requested_type w ((validate_iff image_type args w).0 valid))))
