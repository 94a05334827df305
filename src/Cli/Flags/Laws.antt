-- ===== src/Cli/Flags/Laws.antt =====
-- What the flags can change of the policy and the verification of certificates.
use golang_imageindex_list.Prelude.{Bytes, codes, true, false, some, ◌≡◌, refl, List, map}
use golang_imageindex_list.Options.{CopyOptions}
use golang_imageindex_list.Options.Contexts.{
  SystemContext, accept_anything, policy_source, image_system_context,
}
use golang_imageindex_list.Options.Flags.{
  add_flag_set, shared_image_flags, retry_flags, deprecated_tls_verify_flags, image_flags,
  image_dest_flags, Values, Flag, flag_of,
}
use golang_imageindex_list.Options.Flags.Keeps.{
  All-Among, KeepAll, KeepAll-add_flag_set, flags_of-Keep, set_variable-Keeps,
}
use golang_imageindex_list.Cli.Flags.{
  own_flags, source_flags, destination_flags, command_flags, IsParsed, start, set,
}

-- Certificates are not verified.
abbrev pub SkipsTls : SystemContext → Type 0
SkipsTls context = context.docker_insecure_skip_tls_verify ≡ some true

-- No verification: any signature is accepted, and the certificates of both images are not verified.
pub record IsInsecure (opts : CopyOptions) : Type 0 where
  pub policy : policy_source opts.global ≡ accept_anything
  pub source : SkipsTls (image_system_context opts.global opts.shared opts.src_image)
  pub destination : SkipsTls (image_system_context opts.global opts.shared opts.dest_image.image)

-- The two options that decide this.
abbrev Lax : CopyOptions → Type 0
Lax opts = (opts.global.insecure_policy ≡ true) × (opts.global.tls_verify ≡ false)

Lax-IsInsecure : (opts : CopyOptions) → Lax opts → IsInsecure opts
unfolding policy_source image_system_context
Lax-IsInsecure opts (i, t) = record { policy = rw i; source = rw t; destination = rw t }

-- Flags that write a part of the options on which neither of the two depends.
part-KeepAll :
    {S : Type 0} (get : CopyOptions → S) (put : S → CopyOptions → CopyOptions)
    → ((v : S) (o : CopyOptions) → Lax o → Lax (put v o))
    → (own : List (Flag CopyOptions)) (flags : List (Flag S)) → KeepAll Lax own
    → KeepAll Lax (add_flag_set own (map (flag_of get put) flags))
part-KeepAll get put kept own flags h =
    KeepAll-add_flag_set Lax (map (flag_of get put) flags) own h
      (flags_of-Keep get put Lax kept flags)

own_flags-KeepAll : KeepAll Lax own_flags
unfolding own_flags flag_of
own_flags-KeepAll = record { at = ((λ v o p. p), ((λ v o p. p), tt)) }

command_flags-KeepAll : KeepAll Lax command_flags
unfolding command_flags source_flags destination_flags flag_of
command_flags-KeepAll =
    part-KeepAll (λ o. o.dest_image) (λ v o. record o { dest_image = v }) (λ v o p. p) _
      (image_dest_flags (codes "dest-") (codes "dcreds"))
      (part-KeepAll (λ o. o.src_image) (λ v o. record o { src_image = v }) (λ v o p. p) _
        (image_flags (codes "src-") (codes "screds"))
        (part-KeepAll (λ o. o.deprecated_tls_verify) (λ v o. record o { deprecated_tls_verify = v })
          (λ v o p. p) _ deprecated_tls_verify_flags
          (part-KeepAll (λ o. o.retry_times) (λ v o. record o { retry_times = v }) (λ v o p. p) _
            retry_flags
            (part-KeepAll (λ o. o.shared) (λ v o. record o { shared = v }) (λ v o p. p) _
              shared_image_flags own_flags-KeepAll))))

pub Lax-parsed :
    {values : Values} {registry_auth_file : Bytes} {opts : CopyOptions}
    → IsParsed values registry_auth_file opts
    → Lax opts
Lax-parsed start = (refl, refl)
Lax-parsed {values} (set f value parsed among done) =
    set_variable-Keeps Lax values f.variable
      (All-Among _ command_flags f command_flags-KeepAll.at among) value _ _ done
      (Lax-parsed parsed)

-- Whatever flags are given, the signature policy accepts anything, and the certificates of neither
-- registry are verified.
pub parsed-IsInsecure :
    {values : Values} {registry_auth_file : Bytes} {opts : CopyOptions}
    → IsParsed values registry_auth_file opts
    → IsInsecure opts
parsed-IsInsecure parsed = Lax-IsInsecure _ (Lax-parsed parsed)
