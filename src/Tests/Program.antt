-- ===== src/Tests/Program.antt =====
-- The theorems about the program, at a concrete command line and parser.
use golang_imageindex_list.Prelude.{ℕ, Bytes, codes, List, [], ◌∷◌, ◌≤◌, ◌≡◌, length, arith}
use mathlib.Core.Path.{subst}
use golang_imageindex_list.Exec.{returned, fail}
use golang_imageindex_list.Options.{CopyOptions}
use golang_imageindex_list.Mirror.Policies.{with_policies}
use golang_imageindex_list.Cli.Flags.{IsParsed}
use golang_imageindex_list.Cli.Command.{new_cli_cmd, Cobra, IsCobra}
use golang_imageindex_list.Cli.Main.{Parsed, refused, invoked, main}
use golang_imageindex_list.Cli.Ends.{main_ends}
use golang_imageindex_list.Cli.Policies.{policies_unread}
use golang_imageindex_list.Tests.Trusted.{
  readers, mirror, copied_before, called-CopiesLayout, images-IsSafeImages,
}
use golang_imageindex_list.Collector.Trust.{CopiesLayout}
use golang_imageindex_list.Cli.Safe.{calling}
use golang_imageindex_list.Tests.Values.{formats, images, world}
use golang_imageindex_list.Tests.Flags.{values, with_tls_verify, asked_to_verify}

-- A parser that asks for an argument, and finds two flags in front of it.
unfoldable parse : Cobra
parse command [] = refused (codes "requires at least 1 arg(s), only received 0")
parse command (arg ∷ args) = invoked with_tls_verify (arg ∷ args)

parse-invoked :
    {opts : CopyOptions} {args : List Bytes} (argv : List Bytes)
    → parse new_cli_cmd argv ≡ invoked opts args
    → (with_tls_verify ≡ opts) × (1 ≤ length args)
unfolding parse
parse-invoked [] h = absurd cc
parse-invoked {opts} {args} (arg ∷ rest) h =
    let same : arg ∷ rest ≡ args = cc in (cc, subst (λ l. 1 ≤ length l) same (omega arith))

parse-IsCobra : IsCobra values (codes "auth.json") parse
unfolding new_cli_cmd
parse-IsCobra = record {
  options = λ {argv} h.
      subst (IsParsed values (codes "auth.json")) (parse-invoked argv h).0 asked_to_verify;
  enough = λ {argv} h. (parse-invoked argv h).1;
}

-- The copy of the run, by what the parser calls.
abbrev Copies : Parsed → Type 0
Copies (invoked opts (image_type ∷ args)) =
    CopiesLayout readers mirror
      (calling readers images image_type args (record copied_before { opts = opts }))
Copies parsed = Unit

parsed-Copies : Copies (parse new_cli_cmd (codes "release" ∷ []))
unfolding parse
parsed-Copies = called-CopiesLayout

main_ends_example :
    (n : ℕ) × (((main readers images (parse new_cli_cmd (codes "release" ∷ [])) copied_before).0
        ≡ returned n)
      × (n ≤ 1))
main_ends_example =
    main_ends readers images-IsSafeImages parse parse-IsCobra (codes "release" ∷ []) copied_before
      (λ opts image_type args e. subst Copies e parsed-Copies)

policies_unread_example :
    main formats images (parse new_cli_cmd (codes "release" ∷ [])) (world [])
    ≡ main formats
        (with_policies images (fail (codes "no policy")) (λ path. fail (codes "no file")))
        (parse new_cli_cmd (codes "release" ∷ []))
        (world [])
policies_unread_example =
    policies_unread formats images (fail (codes "no policy")) (λ path. fail (codes "no file")) parse
      parse-IsCobra (codes "release" ∷ []) (world [])
