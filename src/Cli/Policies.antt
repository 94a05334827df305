-- ===== src/Cli/Policies.antt =====
-- Which signature policies a run of the command reads.
use golang_imageindex_list.Prelude.{
  Bytes, List, [], ◌∷◌, ◌≡◌, ◌∙◌, ap, true, refl, length, ◌≤◌, arith,
}
use golang_imageindex_list.Exec.{Exec}
use golang_imageindex_list.Os.{Os}
use golang_imageindex_list.World.{World}
use golang_imageindex_list.Options.Flags.{Values}
use golang_imageindex_list.Options.{CopyOptions}
use golang_imageindex_list.Manifest.Formats.{Formats}
use golang_imageindex_list.Manifest.Service as ManifestService
use golang_imageindex_list.Mirror.Images.{Images}
use golang_imageindex_list.Mirror.Copy as MirrorCopy
use golang_imageindex_list.Mirror.Policies.{with_policies, copy-AgreeInsecure}
use golang_imageindex_list.Collector.Collect.{collect}
use golang_imageindex_list.Collector.Policies.{
  Insecure, collect_same_operator, collect_same_release,
}
use golang_imageindex_list.Cli.Main.{run_command, Parsed, refused, answered, invoked, main}
use golang_imageindex_list.Cli.Validation.{IsRequest, operator, release}
use golang_imageindex_list.Cli.Flags.Laws.{Lax-parsed}
use golang_imageindex_list.Cli.Command.{new_cli_cmd, Cobra, IsCobra}
use golang_imageindex_list.Cli.Same.{run_command_same}

module _ {O : Os} (formats : Formats) (images : Images O)
    (default_policy : Exec (World O) images.Policy)
    (policy_from_file : Bytes → Exec (World O) images.Policy) (image_type : Bytes)
    (args : List Bytes) where
  abbrev others : Images O
  others = with_policies images default_policy policy_from_file

  collect_same :
      {reference : Bytes}
      → IsRequest image_type reference
      → (w : World O) → Insecure w
      → w.opts.global.image_index ≡ image_type
      → collect (ManifestService.service formats) (MirrorCopy.service images) w
        ≡ collect (ManifestService.service formats) (MirrorCopy.service others) w
  collect_same (operator is_operator _) w insecure same =
      collect_same_operator _ (copy-AgreeInsecure images default_policy policy_from_file) w insecure
        (same ∙ is_operator)
  collect_same (release is_release _) w insecure same =
      collect_same_release _ (copy-AgreeInsecure images default_policy policy_from_file) w insecure
        (same ∙ is_release)

  command_same :
      (w : World O)
      → Insecure w
      → run_command formats images (image_type ∷ args) w
        ≡ run_command formats others (image_type ∷ args) w
  command_same w insecure =
      run_command_same formats images others image_type args (λ _. Unit) w
        (record {
          remove_logs = λ s p. tt;
          make_working = λ s p. tt;
          make_logs = λ s p. tt;
          make_releases = λ s p. tt;
          make_operators = λ s p. tt;
          make_log_file = λ s p. tt;
        })
        tt
        (λ request now same p.
          collect_same request now (ap (λ g. g.insecure_policy) same ∙ insecure)
            (ap (λ g. g.image_index) same))

module _ {O : Os} (formats : Formats) (images : Images O)
    (default_policy : Exec (World O) images.Policy)
    (policy_from_file : Bytes → Exec (World O) images.Policy) where
  program_same :
      (parsed : Parsed)
      → ((opts : CopyOptions) (args : List Bytes)
          → parsed ≡ invoked opts args
          → (opts.global.insecure_policy ≡ true) × (1 ≤ length args))
      → (w : World O)
      → main formats images parsed w
        ≡ main formats (with_policies images default_policy policy_from_file) parsed w
  unfolding main
  program_same (refused e) invoked_by w = refl
  program_same answered invoked_by w = refl
  program_same (invoked opts []) invoked_by w = absurd (omega (arith, (invoked_by opts [] refl).1))
  program_same (invoked opts (image_type ∷ args)) invoked_by w =
      command_same formats images default_policy policy_from_file image_type args
        (record w { opts = opts }) (invoked_by opts (image_type ∷ args) refl).0

  -- Whatever the arguments of the program and the state, the program does the same with any other
  -- default policy and any other policy files: what those say decides about no copy. The parser sets
  -- the flags of the command only, and asks for the number of arguments that the command asks for.
  pub policies_unread :
      {values : Values} {registry_auth_file : Bytes} (execute : Cobra)
      → IsCobra values registry_auth_file execute
      → (argv : List Bytes) (w : World O)
      → main formats images (execute new_cli_cmd argv) w
        ≡ main formats
            (with_policies images default_policy policy_from_file)
            (execute new_cli_cmd argv)
            w
  unfolding new_cli_cmd
  policies_unread execute cobra argv w =
      program_same (execute new_cli_cmd argv)
        (λ opts args h. ((Lax-parsed (cobra.options h)).0, cobra.enough h)) w
