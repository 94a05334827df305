-- ===== src/Tests/Flags.antt =====
-- The theorems about the flags, at concrete command lines.
use golang_imageindex_list.Prelude.{codes, true, some, inl, inr, refl}
use golang_imageindex_list.Prelude.Int.{pos}
use golang_imageindex_list.Exec.{ok}
use golang_imageindex_list.Options.{CopyOptions}
use golang_imageindex_list.Options.Flags.{
  Values, Flag, text, optional_boolean, flag, hidden_flag, flag_of, set_variable,
}
use golang_imageindex_list.Cli.Flags.{
  command_flags, source_flags, destination_flags, global_flag, initial_options, IsParsed, start,
  set,
}
use golang_imageindex_list.Cli.Flags.Laws.{IsInsecure, parsed-IsInsecure}
use golang_imageindex_list.Cli.Flags.Sides.{Swapped, source_destination_swap}

abbrev pub values : Values
values = record { parse_bool = λ value. ok true; parse_int = λ value. ok (pos 1) }

abbrev image_index : Flag CopyOptions
image_index = global_flag (flag (codes "image-index") (text (λ v g. record g { reference = v })))

abbrev tls_verify : Flag CopyOptions
tls_verify =
    flag_of (λ o. o.deprecated_tls_verify) (λ d o. record o { deprecated_tls_verify = d })
      (hidden_flag (codes "tls-verify") (optional_boolean (λ b o. record o { tls_verify = b })))

abbrev at_start : CopyOptions
at_start = initial_options (codes "auth.json")

abbrev with_reference : CopyOptions
with_reference = record at_start {
  global = record at_start.global { reference = codes "r/release:4" };
}

abbrev pub with_tls_verify : CopyOptions
with_tls_verify = record with_reference {
  deprecated_tls_verify = record { tls_verify = some true };
}

-- `--image-index r/release:4 --tls-verify=true`
pub asked_to_verify : IsParsed values (codes "auth.json") with_tls_verify
unfolding set_variable command_flags flag_of
asked_to_verify =
    set tls_verify (codes "true")
      (set image_index (codes "r/release:4") start (inr (inl refl)) refl)
      (inr (inr (inr (inr (inl refl))))) refl

parsed-IsInsecure_example : IsInsecure with_tls_verify
parsed-IsInsecure_example = parsed-IsInsecure asked_to_verify

abbrev source_blobs : Flag CopyOptions
source_blobs =
    flag_of (λ o. o.src_image) (λ i o. record o { src_image = i })
      (flag (codes "src-shared-blob-dir") (text (λ v o. record o { shared_blob_dir = v })))

abbrev destination_blobs : Flag CopyOptions
destination_blobs =
    flag_of (λ o. o.dest_image) (λ i o. record o { dest_image = i })
      (flag_of (λ o. o.image) (λ i o. record o { image = i })
        (flag (codes "dest-shared-blob-dir") (text (λ v o. record o { shared_blob_dir = v }))))

abbrev with_source : CopyOptions
with_source = record at_start {
  src_image = record at_start.src_image { shared_blob_dir = codes "s" };
}

abbrev with_both : CopyOptions
with_both = record with_source {
  dest_image = record at_start.dest_image {
    image = record at_start.dest_image.image { shared_blob_dir = codes "d" };
  };
}

source_destination_swap_example :
    Swapped values source_blobs destination_blobs (codes "s") (codes "d") at_start with_both
unfolding set_variable source_flags destination_flags flag_of
source_destination_swap_example =
    source_destination_swap values source_blobs destination_blobs (codes "s") (codes "d") at_start
      with_source with_both (inl refl) (inl refl) refl refl
