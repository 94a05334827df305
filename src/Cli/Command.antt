-- ===== src/Cli/Command.antt =====
-- pkg/cli/executor.go: the command that `NewCliCmd` makes, and what the command line parser makes of
-- it, which is a third-party library (spf13/cobra) and a parameter.
use golang_imageindex_list.Prelude.{ℕ, Bytes, codes, Bool, false, List, ◌≤◌, ◌≡◌, length}
use golang_imageindex_list.Options.{CopyOptions}
use golang_imageindex_list.Options.Flags.{Values, Flag}
use golang_imageindex_list.Cli.Flags.{command_flags, IsParsed}
use golang_imageindex_list.Cli.Main.{Parsed, invoked}

-- The fields of `cobra.Command` that the program sets, but for the function `Run`.
pub record Command : Type 0 where
  pub usage : Bytes
  pub version : Bytes
  pub short : Bytes
  pub long : Bytes
  pub example : Bytes
  -- `cobra.MinimumNArgs`
  pub minimum_args : ℕ
  pub silence_errors : Bool
  pub silence_usage : Bool
  pub flags : List (Flag CopyOptions)

-- `NewCliCmd`
unfoldable pub new_cli_cmd : Command
new_cli_cmd = record {
  usage =
      codes "list <image-type select one of [release,operator]> --image-index <image-reference>";
  version = codes "v0.0.1";
  short = codes "List image index by channel and version";
  long = codes "List image index (operators or releases) by channel and version";
  example = codes "list operator --image-index registry.redhat.io/redhat-operator-index:4.11";
  minimum_args = 1;
  silence_errors = false;
  silence_usage = false;
  flags = command_flags;
}

-- `Command.Execute`, up to the call of `Run`.
abbrev pub Cobra : Type 0
Cobra = Command → List Bytes → Parsed

-- It calls `Run` only with the options as the flags have left them, and with at least the number of
-- arguments that the command asks for.
pub record IsCobra (values : Values) (registry_auth_file : Bytes) (execute : Cobra) : Type 0 where
  pub options :
      {argv args : List Bytes} {opts : CopyOptions}
      → execute new_cli_cmd argv ≡ invoked opts args
      → IsParsed values registry_auth_file opts
  pub enough :
      {argv args : List Bytes} {opts : CopyOptions}
      → execute new_cli_cmd argv ≡ invoked opts args
      → new_cli_cmd.minimum_args ≤ length args
