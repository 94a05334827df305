-- ===== src/Mirror/Copy.antt =====
-- pkg/mirror/mirror.go: `copy` and `Run`; pkg/mirror/unshare_linux.go:
-- `ReexecIfNecessaryForImages`; the rest of pkg/mirror/options.go that they call.
use golang_imageindex_list.Prelude.{
  Bytes, codes, List, [], ◌∷◌, ◌++◌, none, some, true, is_empty, if◌then◌else◌,
}
use golang_imageindex_list.Exec.{
  Outcome, returned, failed, panicked, Exec, pure, lift, gets, modify, wrapped, for_each, ◌>>=◌,
  ◌>>◌,
}
use golang_imageindex_list.Fmt.{sprintf}
use golang_imageindex_list.Strings.{join}
use golang_imageindex_list.Os.{Os}
use golang_imageindex_list.World.{World, print}
use golang_imageindex_list.Options.{GlobalOptions, CopyOptions, DeprecatedTlsVerifyOption}
use golang_imageindex_list.Options.Contexts.{
  PolicySource, accept_anything, default_policy, from_file, policy_source, image_system_context,
  command_timeout_context,
}
use golang_imageindex_list.Options.Format.{parse_manifest_format}
use golang_imageindex_list.Mirror.{Mirror}
use golang_imageindex_list.Mirror.Images.{Images}

abbrev pub message : Bytes → Bytes → Bytes
message format e = sprintf format (e ∷ [])

-- A deferred call that may replace the error. It runs behind an error and a panic too.
unfoldable pub replace_error {ℓ} : {A : Type ℓ} → Outcome A → Outcome (Unit {0}) → Outcome A
replace_error r (returned _) = r
replace_error (returned a) (failed e) = failed e
replace_error (failed d) (failed e) = failed e
replace_error panicked (failed e) = panicked
replace_error r panicked = panicked

unfoldable pub deferred {ℓ} :
    {S : Type ℓ} {A : Type ℓ} → Exec {ℓ} S A → (S → Outcome (Unit {0}) × S) → Exec S A
unfolding replace_error
deferred body cleanup s =
    let (r, s') = body s in let (d, s'') = cleanup s' in (replace_error r d, s'')

module _ {O : Os} (images : Images O) where
  open images use {Policy, PolicyContext, ImageReference}

  -- `WarnIfUsed`
  unfoldable pub warn_if_used : DeprecatedTlsVerifyOption → List Bytes → Exec (World O) (Unit {0})
  warn_if_used opts alternatives = elim opts.tls_verify [
    | none ↦ pure tt
    | some _ ↦ images.warn (
        sprintf (codes "'--tls-verify' is deprecated, instead use: %s")
          (join alternatives (codes ", ") ∷ []))
  ]

  -- `ReexecIfNecessaryForImages`, which prints the transport of each name.
  unfoldable pub reexec_if_necessary_for_images : List Bytes → Exec (World O) (Unit {0})
  reexec_if_necessary_for_images image_names =
      for_each image_names (λ name. print (codes "info  " ++ images.transport name))

  -- The policy of `GetPolicyContext`.
  unfoldable pub choose_policy : PolicySource → Exec (World O) Policy
  choose_policy accept_anything = pure images.insecure_policy
  choose_policy default_policy = images.default_policy
  choose_policy (from_file path) = images.policy_from_file path

  -- `GetPolicyContext`
  unfoldable pub get_policy_context : GlobalOptions → Exec (World O) PolicyContext
  get_policy_context opts = do
    policy ← choose_policy (policy_source opts)
    images.new_policy_context policy

  -- The manifest type that is forced: none, or that of the format.
  unfoldable pub manifest_type : CopyOptions → Exec (World O) Bytes
  manifest_type opts =
      if is_empty opts.format
      then pure []
      else lift (parse_manifest_format images.media_types opts.format)

  -- The call that may be tried again.
  unfoldable pub attempt :
      CopyOptions
      → PolicyContext
      → ImageReference
      → ImageReference
      → Bytes
      → Exec (World O) (Unit {0})
  attempt opts policy_context dest_ref src_ref mime_type = do
    images.copy_image (command_timeout_context opts.global) policy_context dest_ref src_ref
        (record {
          remove_signatures = opts.remove_signatures;
          sign_by = opts.sign_by_fingerprint;
          sign_by_sigstore_private_key_file = opts.sign_by_sigstore_private_key;
          source_ctx = image_system_context opts.global opts.shared opts.src_image;
          destination_ctx = image_system_context opts.global opts.shared opts.dest_image.image;
          force_manifest_mime_type = mime_type;
          preserve_digests = opts.preserve_digests;
        })
    pure tt

  -- `copy`, from the point where the policy context is there.
  unfoldable pub copy_with : PolicyContext → Bytes → Bytes → Exec (World O) (Unit {0})
  copy_with policy_context src dest = do
    src_ref ←
        wrapped (λ e. sprintf (codes "Invalid source name %s: %v") (src ∷ e ∷ []))
          (lift (images.parse_image_name src))
    dest_ref ←
        wrapped (λ e. sprintf (codes "Invalid destination name %s: %v") (dest ∷ e ∷ []))
          (lift (images.parse_image_name dest))
    opts ← gets (λ w. w.opts)
    mime_type ← manifest_type opts
    images.if_necessary (command_timeout_context opts.global)
        (attempt opts policy_context dest_ref src_ref mime_type) opts.retry_times

  -- `copy`, up to the policy context. `ParseBool("true")` is true.
  unfoldable pub obtain_policy : Bytes → Bytes → Exec (World O) PolicyContext
  obtain_policy src dest = do
    opts ← gets (λ w. w.opts)
    warn_if_used opts.deprecated_tls_verify
        (codes "--src-tls-verify" ∷ codes "--dest-tls-verify" ∷ [])
    modify (λ w. record w { opts = record w.opts { remove_signatures = true } })
    reexec_if_necessary_for_images (src ∷ dest ∷ [])
    wrapped (message (codes "Error loading trust policy: %v")) (get_policy_context opts.global)

  -- `copy`, with its deferred call.
  unfoldable pub copy : Bytes → Bytes → Exec (World O) (Unit {0})
  copy src dest = do
    policy_context ← obtain_policy src dest
    deferred (copy_with policy_context src dest)
        (wrapped (message (codes "%v")) (images.destroy policy_context))

  -- `Run`, which does not look at its mode.
  abbrev pub service : Mirror O
  service = record { run = λ src dest mode. copy src dest }
