-- ===== src/Mirror/Laws.antt =====
-- What every copy does, whatever the image libraries do.
use golang_imageindex_list.Prelude.{
  ℕ, Bytes, codes, [], ◌∷◌, ◌≡◌, ◌↔◌, inl, inr, refl, arith, some, true, false, bytes_eq,
  bytes_eq_sound, Bool-cases,
}
use golang_imageindex_list.Exec.{
  Result-cases, ok, err, Outcome, returned, failed, panicked, rewrap, ◌>>=◌,
}
use golang_imageindex_list.Fmt.{sprintf}
use golang_imageindex_list.Os.{Os}
use golang_imageindex_list.World.{World}
use golang_imageindex_list.Options.{
  GlobalOptions, SharedImageOptions, ImageOptions, DockerImageOptions,
}
use golang_imageindex_list.Options.Contexts.{image_system_context}
use golang_imageindex_list.Options.Format.{MediaTypes, parse_manifest_format}
use golang_imageindex_list.Mirror.Images.{Images}
use golang_imageindex_list.Mirror.Copy.{
  message, deferred, replace_error, manifest_type, obtain_policy, copy_with, copy,
}

success_iff :
    (r d : Outcome (Unit {0}))
    → (replace_error r (rewrap (message (codes "%v")) d) ≡ returned tt)
      ↔ ((r ≡ returned tt) × (d ≡ returned tt))
unfolding replace_error
success_iff (returned _) (returned _) = (λ _. (refl, refl), λ _. refl)
success_iff (failed e) (returned _) = (λ h. cc, λ h. cc)
success_iff panicked (returned _) = (λ h. cc, λ h. cc)
success_iff (returned _) (failed e) = (λ h. cc, λ h. cc)
success_iff (failed d) (failed e) = (λ h. cc, λ h. cc)
success_iff panicked (failed e) = (λ h. cc, λ h. cc)
success_iff (returned _) panicked = (λ h. cc, λ h. cc)
success_iff (failed d) panicked = (λ h. cc, λ h. cc)
success_iff panicked panicked = (λ h. cc, λ h. cc)

abbrev bad_source : Bytes → Bytes → Bytes
bad_source src e = sprintf (codes "Invalid source name %s: %v") (src ∷ e ∷ [])

abbrev bad_destination : Bytes → Bytes → Bytes
bad_destination dest e = sprintf (codes "Invalid destination name %s: %v") (dest ∷ e ∷ [])

module _ {O : Os} (images : Images O) (src dest : Bytes) where
  -- Once the policy context is there it is destroyed at the end, whatever happens between, an error
  -- and a panic included, and the copy succeeds exactly when what is between succeeds and the
  -- destruction does.
  pub copy_destroys :
      (w w' : World O) (policy_context : images.PolicyContext)
      → obtain_policy images src dest w ≡ (returned policy_context, w')
      → ((copy images src dest w).1
          ≡ (images.destroy policy_context (copy_with images policy_context src dest w').1).1)
        × (((copy images src dest w).0 ≡ returned tt) ↔ (
            ((copy_with images policy_context src dest w').0 ≡ returned tt)
            × ((images.destroy policy_context (copy_with images policy_context src dest w').1).0
                ≡ returned tt)))
  unfolding copy deferred ◌>>=◌
  copy_destroys w w' policy_context h = rw h (refl, success_iff _ _)

  -- A name that the image library does not parse, or a format that is not known.
  pub data IsRefused (w : World O) : Type 0 where
    source : (e : Bytes) → images.parse_image_name src ≡ err e → IsRefused w
    destination : (e : Bytes) → images.parse_image_name dest ≡ err e → IsRefused w
    manifest_format :
        (c : ℕ) (cs e : Bytes)
        → w.opts.format ≡ c ∷ cs
        → parse_manifest_format images.media_types (c ∷ cs) ≡ err e
        → IsRefused w

  -- A run that ends with an error and leaves the state as it was.
  pub IsFailure : Outcome (Unit {0}) × World O → World O → Type 0
  IsFailure run w = (e : Bytes) × (run ≡ (failed e, w))

  -- A source, a destination or a format that is refused ends the copy before the image library is
  -- called: it fails, and nothing has changed.
  copy_with_refused :
      (policy_context : images.PolicyContext) (w : World O)
      → IsRefused w
      → IsFailure (copy_with images policy_context src dest w) w
  unfolding IsFailure copy_with manifest_type ◌>>=◌
  copy_with_refused policy_context w (source e h) = (bad_source src e, rw h)
  copy_with_refused policy_context w (destination e h) =
      elim (Result-cases (images.parse_image_name src)) [
        | inl (a, found) ↦ (bad_destination dest e, rw (found, h))
        | inr (d, refused) ↦ (bad_source src d, rw refused)
      ]
  copy_with_refused policy_context w (manifest_format c cs e h k) =
      elim (Result-cases (images.parse_image_name src)) [
        | inr (d, refused) ↦ (bad_source src d, rw refused)
        | inl (a, found) ↦ elim (Result-cases (images.parse_image_name dest)) [
          | inr (d, refused) ↦ (bad_destination dest d, rw (found, refused))
          | inl (b, found') ↦ (e, rw (found, found', h, k))
        ]
      ]

-- The formats that are known, with their types.
pub data Names (types : MediaTypes) (format mime_type : Bytes) : Type 0 where
  oci : format ≡ codes "oci" → mime_type ≡ types.image_manifest → Names types format mime_type
  v2s1 : format ≡ codes "v2s1" → mime_type ≡ types.docker_v2s1_signed → Names types format mime_type
  v2s2 : format ≡ codes "v2s2" → mime_type ≡ types.docker_v2s2 → Names types format mime_type

module _ (types : MediaTypes) (format mime_type : Bytes) where
  named_format : parse_manifest_format types format ≡ ok mime_type → Names types format mime_type
  unfolding parse_manifest_format
  named_format h = elim (Bool-cases (bytes_eq format (codes "oci"))) [
    | inl a ↦ oci (bytes_eq_sound _ _ a) (ground arith)
    | inr not_oci ↦ elim (Bool-cases (bytes_eq format (codes "v2s1"))) [
      | inl b ↦ v2s1 (bytes_eq_sound _ _ b) (ground arith)
      | inr not_v2s1 ↦ elim (Bool-cases (bytes_eq format (codes "v2s2"))) [
        | inl c ↦ v2s2 (bytes_eq_sound _ _ c) (ground arith)
        | inr not_v2s2 ↦ absurd (ground arith)
      ]
    ]
  ]

  format_named : Names types format mime_type → parse_manifest_format types format ≡ ok mime_type
  unfolding parse_manifest_format bytes_eq
  format_named (oci e t) = rw (e, t)
  format_named (v2s1 e t) = rw (e, t)
  format_named (v2s2 e t) = rw (e, t)

  -- `ParseManifestFormat` gives a type exactly for `oci`, `v2s1` and `v2s2`, and each its own.
  parse_manifest_format_iff :
      (parse_manifest_format types format ≡ ok mime_type) ↔ Names types format mime_type
  parse_manifest_format_iff = (named_format, format_named)

-- The credentials, the authentication file and the TLS choice of one image have no effect on its
-- context: of the options of an image, the certificates, the blob directory and the daemon are used.
-- Certificates are verified exactly if the global option says so.
image_system_context_ignores :
    (global : GlobalOptions) (shared : SharedImageOptions) (opts : ImageOptions)
    (other : DockerImageOptions)
    → other.docker_cert_path ≡ opts.docker.docker_cert_path
    → (image_system_context global shared (record opts { docker = other })
        ≡ image_system_context global shared opts)
      × (((image_system_context global shared opts).docker_insecure_skip_tls_verify ≡ some true)
          ↔ (global.tls_verify ≡ false))
unfolding image_system_context
image_system_context_ignores global shared opts other h = (rw h, (ground arith, λ e. rw e))
