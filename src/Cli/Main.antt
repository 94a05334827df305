-- ===== src/Cli/Main.antt =====
-- pkg/cli/executor.go: `NewCliCmd`; cmd/list/main.go: `main`. The command line parser is a
-- third-party library: what it makes of the arguments is a parameter.
use golang_imageindex_list.Prelude.{ℕ, Bytes, codes, List, [], ◌∷◌}
use golang_imageindex_list.Exec.{Result, ok, err, returned, Exec, pure, try, ◌>>=◌, ◌>>◌}
use golang_imageindex_list.Os.{Os}
use golang_imageindex_list.World.{World}
use golang_imageindex_list.Log.{log_error}
use golang_imageindex_list.Options.{CopyOptions}
use golang_imageindex_list.Manifest.Formats.{Formats}
use golang_imageindex_list.Mirror.Images.{Images}
use golang_imageindex_list.Cli.Executor.{validate, complete, run}

-- What the command line parser does: refuse the arguments, answer by itself (help, version), or
-- write the flags into the options and call the command with the other arguments.
pub data Parsed : Type 0 where
  refused : Bytes → Parsed
  answered : Parsed
  invoked : CopyOptions → List Bytes → Parsed

-- The exit status behind `Validate`, which is not logged if it fails.
unfoldable pub after_run : {O : Os} → Result (Unit {0}) → Exec (World O) ℕ
after_run (ok _) = pure 0
after_run (err e) = do log_error (codes "%v ") (e ∷ []); pure 1

module _ {O : Os} (formats : Formats) (images : Images O) where
  unfoldable pub after_validate : List Bytes → Result (Unit {0}) → Exec (World O) ℕ
  after_validate args (err e) = pure 1
  after_validate args (ok _) = do
    ex ← complete formats images args
    finished ← try (run ex)
    after_run finished

  -- The function `Run` of the command; its value is the exit status.
  unfoldable pub run_command : List Bytes → Exec (World O) ℕ
  run_command args = do valid ← try (validate args); after_validate args valid

  -- `main`
  unfoldable pub main : Parsed → Exec (World O) ℕ
  main (refused e) w = (do log_error (codes "[main] %v ") (e ∷ []); pure 1) w
  main answered w = (returned 0, w)
  main (invoked opts args) w = run_command args (record w { opts = opts })
