-- ===== src/Cli/Ends.antt =====
-- How the program ends.
use golang_imageindex_list.Prelude.{ℕ, List, [], ◌∷◌, ◌≤◌, ◌≡◌, ◌≢◌, arith, refl, length, Bytes}
use golang_imageindex_list.Exec.{Result, ok, err, returned, panicked}
use golang_imageindex_list.Exec.Safe.{IsSafe-pure, IsSafe-bind, IsSafe-modify}
use golang_imageindex_list.Exec.Gives.{
  Gives, Anything, Gives-pure, Gives-gets, Gives-deref, Gives-modify, Gives-try, Gives-bind,
  Gives-value,
}
use golang_imageindex_list.Os.{Os}
use golang_imageindex_list.World.{World}
use golang_imageindex_list.Options.{CopyOptions}
use golang_imageindex_list.Options.Flags.{Values}
use golang_imageindex_list.Manifest.Formats.{Formats}
use golang_imageindex_list.Mirror.Images.{Images}
use golang_imageindex_list.Mirror.Safe.{IsSafeImages}
use golang_imageindex_list.Collector.Trust.{CopiesLayout}
use golang_imageindex_list.Cli.Executor.{complete, run}
use golang_imageindex_list.Cli.Main.{
  after_run, after_validate, run_command, Parsed, refused, answered, invoked, main,
}
use golang_imageindex_list.Cli.Command.{new_cli_cmd, Cobra, IsCobra}
use golang_imageindex_list.Mirror.Copy as MirrorCopy
use golang_imageindex_list.Cli.Safe.{calling, run_command_safe}

abbrev pub IsStatus : ℕ → Type 0
IsStatus n = n ≤ 1

module _ {O : Os} (formats : Formats) (images : Images O) where
  after_run-Gives : (r : Result (Unit {0})) → Gives IsStatus (after_run {O = O} r)
  unfolding after_run
  after_run-Gives (ok _) = Gives-pure IsStatus 0 (omega arith)
  after_run-Gives (err e) =
      Gives-bind IsStatus _ _ (Gives-modify _) (λ _. Gives-pure IsStatus 1 (omega arith))

  complete-Gives : (args : List Bytes) → Gives Anything (complete formats images args)
  unfolding complete
  complete-Gives args = Gives-bind Anything _ _ (Gives-gets Anything _ (λ _. tt)) (λ g.
      Gives-bind Anything _ _ (Gives-modify _) (λ _.
        Gives-bind Anything _ _ (Gives-deref Anything _ (λ _. tt))
          (λ t. Gives-bind Anything _ _ (Gives-modify _) (λ _. Gives-pure Anything _ tt))))

  after_validate-Gives :
      (args : List Bytes) (r : Result (Unit {0}))
      → Gives IsStatus (after_validate formats images args r)
  unfolding after_validate
  after_validate-Gives args (err e) = Gives-pure IsStatus 1 (omega arith)
  after_validate-Gives args (ok _) =
      Gives-bind IsStatus _ _ (complete-Gives args)
        (λ ex. Gives-bind IsStatus _ _ (Gives-try (run ex)) after_run-Gives)

  run_command-Gives : (args : List Bytes) → Gives IsStatus (run_command formats images args)
  unfolding run_command
  run_command-Gives args = Gives-bind IsStatus _ _ (Gives-try _) (after_validate-Gives args)

  main-Gives : (parsed : Parsed) → Gives IsStatus (main formats images parsed)
  unfolding main
  main-Gives (refused e) = record {
    at = (Gives-bind IsStatus _ _ (Gives-modify _) (λ _. Gives-pure IsStatus 1 (omega arith))).at;
  }
  main-Gives answered = record { at = λ w. omega arith }
  main-Gives (invoked opts args) = record {
    at = λ w. (run_command-Gives args).at (record w { opts = opts });
  }

module _ {O : Os} (formats : Formats) {images : Images O} (libraries : IsSafeImages images) where
  main_safe :
      (parsed : Parsed)
      → ((opts : CopyOptions) (args : List Bytes) → parsed ≡ invoked opts args → 1 ≤ length args)
      → (w : World O)
      → ((opts : CopyOptions) (image_type : Bytes) (args : List Bytes)
          → parsed ≡ invoked opts (image_type ∷ args)
          → CopiesLayout formats
              (MirrorCopy.service images)
              (calling formats images image_type args (record w { opts = opts })))
      → (main formats images parsed w).0 ≢ panicked
  unfolding main
  main_safe (refused e) enough w copies =
      (IsSafe-bind _ _ (IsSafe-modify _) (λ _. IsSafe-pure 1)).at w
  main_safe answered enough w copies = λ h. cc
  main_safe (invoked opts []) enough w copies = absurd (omega (arith, enough opts [] refl))
  main_safe (invoked opts (image_type ∷ args)) enough w copies =
      run_command_safe formats images image_type args libraries (record w { opts = opts })
        (copies opts image_type args refl)

  -- Whatever the arguments of the program and the state, and whatever else fails on the way, the
  -- program ends with exit status 0 or 1, if the image libraries do not panic, the copy that this
  -- run asks them for leaves an OCI image layout with its documents in its directory, where it
  -- succeeds, and the parser calls the command with at least as many arguments as it asks for.
  pub main_ends :
      {values : Values} {registry_auth_file : Bytes} (execute : Cobra)
      → IsCobra values registry_auth_file execute
      → (argv : List Bytes) (w : World O)
      → ((opts : CopyOptions) (image_type : Bytes) (args : List Bytes)
          → execute new_cli_cmd argv ≡ invoked opts (image_type ∷ args)
          → CopiesLayout formats
              (MirrorCopy.service images)
              (calling formats images image_type args (record w { opts = opts })))
      → (n : ℕ) × (((main formats images (execute new_cli_cmd argv) w).0 ≡ returned n) × (n ≤ 1))
  unfolding new_cli_cmd
  main_ends execute cobra argv w copies =
      Gives-value IsStatus _ (main-Gives formats images (execute new_cli_cmd argv)) w
        (main_safe (execute new_cli_cmd argv) (λ opts args h. cobra.enough h) w copies)
