-- ===== src/Mirror/Safe.antt =====
-- A copy does not panic, if the image libraries do not.
use golang_imageindex_list.Prelude.{Bytes, List, inl, inr, Option-cases, is_empty, ◌≢◌, refl}
use golang_imageindex_list.Prelude.Int.{ℤ}
use golang_imageindex_list.Exec.{Outcome, returned, failed, panicked, Exec}
use golang_imageindex_list.Exec.Safe.{
  IsSafe, IsSafe-pure, IsSafe-lift, IsSafe-gets, IsSafe-modify, IsSafe-wrapped, IsSafe-if,
  IsSafe-bind, IsSafe-for_every,
}
use golang_imageindex_list.Os.{Os}
use golang_imageindex_list.World.{World}
use golang_imageindex_list.Options.{CopyOptions, DeprecatedTlsVerifyOption}
use golang_imageindex_list.Options.Contexts.{
  Context, PolicySource, accept_anything, default_policy, from_file, policy_source,
}
use golang_imageindex_list.Mirror.Images.{Images, ImageCopyOptions}
use golang_imageindex_list.Mirror.Copy.{
  deferred, replace_error, warn_if_used, reexec_if_necessary_for_images, choose_policy,
  get_policy_context, manifest_type, attempt, obtain_policy, copy_with, copy,
}

-- No function of the image libraries panics; a retry does not if what is tried does not.
pub record IsSafeImages {O : Os} (images : Images O) : Type 0 where
  pub warn : (message : Bytes) → IsSafe (images.warn message)
  pub default_policy : IsSafe images.default_policy
  pub policy_from_file : (path : Bytes) → IsSafe (images.policy_from_file path)
  pub new_policy_context : (policy : images.Policy) → IsSafe (images.new_policy_context policy)
  pub destroy : (context : images.PolicyContext) → IsSafe (images.destroy context)
  pub copy_image :
      (c : Context) (policy_context : images.PolicyContext) (dest src : images.ImageReference)
      (opts : ImageCopyOptions)
      → IsSafe (images.copy_image c policy_context dest src opts)
  pub if_necessary :
      (c : Context) (operation : Exec (World O) (Unit {0})) (times : ℤ)
      → IsSafe operation
      → IsSafe (images.if_necessary c operation times)

replace_error_safe :
    {A : Type 0} (r : Outcome A) (d : Outcome (Unit {0}))
    → r ≢ panicked
    → d ≢ panicked
    → replace_error r d ≢ panicked
unfolding replace_error
replace_error_safe (returned a) (returned _) h k = λ p. cc
replace_error_safe (failed e) (returned _) h k = λ p. cc
replace_error_safe (returned a) (failed d) h k = λ p. cc
replace_error_safe (failed e) (failed d) h k = λ p. cc
replace_error_safe panicked d h k = absurd (h refl)
replace_error_safe r panicked h k = absurd (k refl)

module _ {S A : Type 0} where
  IsSafe-deferred :
      (body : Exec S A) (cleanup : Exec S (Unit {0}))
      → IsSafe body
      → IsSafe cleanup
      → IsSafe (deferred body cleanup)
  unfolding deferred
  IsSafe-deferred body cleanup hb hc = record {
    at = λ s. replace_error_safe (body s).0 (cleanup (body s).1).0 (hb.at s) (hc.at (body s).1);
  }

module _ {O : Os} {images : Images O} (h : IsSafeImages images) where
  warn_if_used-IsSafe :
      (o : DeprecatedTlsVerifyOption) (alternatives : List Bytes)
      → IsSafe (warn_if_used images o alternatives)
  unfolding warn_if_used
  warn_if_used-IsSafe o alternatives = elim (Option-cases o.tls_verify) [
    | inl unset ↦ rw unset (IsSafe-pure tt)
    | inr (b, set) ↦ rw set (h.warn _)
  ]

  choose_policy-IsSafe : (source : PolicySource) → IsSafe (choose_policy images source)
  unfolding choose_policy
  choose_policy-IsSafe accept_anything = IsSafe-pure _
  choose_policy-IsSafe default_policy = h.default_policy
  choose_policy-IsSafe (from_file path) = h.policy_from_file path

  manifest_type-IsSafe : (opts : CopyOptions) → IsSafe (manifest_type images opts)
  unfolding manifest_type
  manifest_type-IsSafe opts =
      IsSafe-if (is_empty opts.format) _ _ (λ _. IsSafe-pure _) (λ _. IsSafe-lift _)

  obtain_policy-IsSafe : (src dest : Bytes) → IsSafe (obtain_policy images src dest)
  unfolding obtain_policy reexec_if_necessary_for_images get_policy_context
  obtain_policy-IsSafe src dest = IsSafe-bind _ _ (IsSafe-gets _) (λ opts.
      IsSafe-bind _ _ (warn_if_used-IsSafe opts.deprecated_tls_verify _) (λ _.
        IsSafe-bind _ _ (IsSafe-modify _) (λ _.
          IsSafe-bind _ _ (IsSafe-for_every _ _ (λ name. IsSafe-modify _)) (λ _.
            IsSafe-wrapped _ _ (
              IsSafe-bind _ _ (choose_policy-IsSafe (policy_source opts.global))
                (λ policy. h.new_policy_context policy))))))

  copy_with-IsSafe :
      (policy_context : images.PolicyContext) (src dest : Bytes)
      → IsSafe (copy_with images policy_context src dest)
  unfolding copy_with attempt
  copy_with-IsSafe policy_context src dest =
      IsSafe-bind _ _ (IsSafe-wrapped _ _ (IsSafe-lift _)) (λ src_ref.
        IsSafe-bind _ _ (IsSafe-wrapped _ _ (IsSafe-lift _)) (λ dest_ref.
          IsSafe-bind _ _ (IsSafe-gets _) (λ opts.
            IsSafe-bind _ _ (manifest_type-IsSafe opts) (λ mime_type. h.if_necessary _ _ _ (
              IsSafe-bind _ _ (h.copy_image _ policy_context dest_ref src_ref _)
                (λ _. IsSafe-pure tt))))))

  pub copy-IsSafe : (src dest : Bytes) → IsSafe (copy images src dest)
  unfolding copy
  copy-IsSafe src dest = IsSafe-bind _ _ (obtain_policy-IsSafe src dest) (λ policy_context.
      IsSafe-deferred _ _ (copy_with-IsSafe policy_context src dest)
        (IsSafe-wrapped _ _ (h.destroy policy_context)))
