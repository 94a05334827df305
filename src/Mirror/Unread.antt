-- ===== src/Mirror/Unread.antt =====
-- The options that decide nothing of a copy.
use golang_imageindex_list.Prelude.{
  Bytes, List, Option-cases, inl, inr, is_empty, true, refl, ap, ◌∙◌,
}
use golang_imageindex_list.Prelude.Int.{ℤ}
use golang_imageindex_list.Exec.{Exec, modify}
use golang_imageindex_list.Os.{Os}
use golang_imageindex_list.World.{World}
use golang_imageindex_list.World.Unread.{
  IsBlind, IsBlind-pure, IsBlind-lift, IsBlind-wrapped, IsBlind-if, IsBlind-print, IsBlind-bind,
  IsBlind-options, IsBlind-for_each,
}
use golang_imageindex_list.Options.{CopyOptions, DeprecatedTlsVerifyOption}
use golang_imageindex_list.Options.Contexts.{
  Context, PolicySource, accept_anything, default_policy, from_file, policy_source,
  command_timeout_context, image_system_context, global_system_context,
}
use golang_imageindex_list.Mirror.Images.{Images, ImageCopyOptions}
use golang_imageindex_list.Mirror.Copy.{
  deferred, replace_error, warn_if_used, reexec_if_necessary_for_images, choose_policy,
  get_policy_context, manifest_type, attempt, obtain_policy, copy_with, copy,
}

-- The image libraries see of the options what they are given, and do not see the logger; so does a
-- retry, if what is tried does.
pub record AreBlind {O : Os} (other : CopyOptions) (images : Images O) : Type 0 where
  pub warn : (message : Bytes) → IsBlind O other (images.warn message)
  pub default_policy : IsBlind O other images.default_policy
  pub policy_from_file : (path : Bytes) → IsBlind O other (images.policy_from_file path)
  pub new_policy_context :
      (policy : images.Policy) → IsBlind O other (images.new_policy_context policy)
  pub destroy : (context : images.PolicyContext) → IsBlind O other (images.destroy context)
  pub copy_image :
      (c : Context) (policy_context : images.PolicyContext)
      (dest_ref src_ref : images.ImageReference) (opts : ImageCopyOptions)
      → IsBlind O other (images.copy_image c policy_context dest_ref src_ref opts)
  pub if_necessary :
      (c : Context) (operation : Exec (World O) (Unit {0})) (times : ℤ)
      → IsBlind O other operation
      → IsBlind O other (images.if_necessary c operation times)

module _ {O : Os} {other : CopyOptions} where
  IsBlind-deferred :
      {A : Type 0} {body : Exec (World O) A} {cleanup : Exec (World O) (Unit {0})}
      → IsBlind O other body
      → IsBlind O other cleanup
      → IsBlind O other (deferred body cleanup)
  unfolding deferred
  IsBlind-deferred {A} {body} {cleanup} bb bc = record {
    at = λ w.
        ap (λ r. let d = cleanup r.1 in (replace_error r.0 d.0, d.1)) (bb.at w)
        ∙ ap (λ d. (replace_error (body w).0 d.0, d.1)) (bc.at (body w).1);
  }

  IsBlind-signatures :
      IsBlind O other
        (modify (λ (w : World O). record w { opts = record w.opts { remove_signatures = true } }))
  unfolding modify
  IsBlind-signatures = record { at = λ w. refl }

  module _ {images : Images O} (k : AreBlind other images) where
    warn_if_used-IsBlind :
        (o : DeprecatedTlsVerifyOption) (alternatives : List Bytes)
        → IsBlind O other (warn_if_used images o alternatives)
    unfolding warn_if_used
    warn_if_used-IsBlind o alternatives = elim (Option-cases o.tls_verify) [
      | inl unset ↦ rw unset (IsBlind-pure tt)
      | inr (b, set) ↦ rw set (k.warn _)
    ]

    choose_policy-IsBlind : (source : PolicySource) → IsBlind O other (choose_policy images source)
    unfolding choose_policy
    choose_policy-IsBlind accept_anything = IsBlind-pure _
    choose_policy-IsBlind default_policy = k.default_policy
    choose_policy-IsBlind (from_file path) = k.policy_from_file path

    manifest_type-IsBlind : (opts : CopyOptions) → IsBlind O other (manifest_type images opts)
    unfolding manifest_type
    manifest_type-IsBlind opts = IsBlind-if (is_empty opts.format) (IsBlind-pure _) (IsBlind-lift _)

    obtain_policy-IsBlind : (src dest : Bytes) → IsBlind O other (obtain_policy images src dest)
    unfolding obtain_policy reexec_if_necessary_for_images get_policy_context policy_source
    obtain_policy-IsBlind src dest =
        IsBlind-options (λ o. o) (λ opts. refl)
          (λ opts. IsBlind-bind (warn_if_used-IsBlind opts.deprecated_tls_verify _) (λ _.
            IsBlind-bind IsBlind-signatures (λ _.
              IsBlind-bind (IsBlind-for_each _ (λ name. IsBlind-print _)) (λ _.
                IsBlind-wrapped _ (
                  IsBlind-bind (choose_policy-IsBlind _)
                    (λ policy. k.new_policy_context policy))))))

    copy_with-IsBlind :
        (policy_context : images.PolicyContext) (src dest : Bytes)
        → IsBlind O other (copy_with images policy_context src dest)
    unfolding copy_with attempt manifest_type command_timeout_context image_system_context
        global_system_context
    copy_with-IsBlind policy_context src dest =
        IsBlind-bind (IsBlind-wrapped _ (IsBlind-lift _)) (λ src_ref.
          IsBlind-bind (IsBlind-wrapped _ (IsBlind-lift _)) (λ dest_ref.
            IsBlind-options (λ o. o) (λ opts. refl)
              (λ opts. IsBlind-bind (manifest_type-IsBlind opts) (λ mime_type.
                k.if_necessary _ _ _ (
                  IsBlind-bind (k.copy_image _ policy_context dest_ref src_ref _)
                    (λ _. IsBlind-pure tt))))))

    pub copy-IsBlind : (src dest : Bytes) → IsBlind O other (copy images src dest)
    unfolding copy
    copy-IsBlind src dest = IsBlind-bind (obtain_policy-IsBlind src dest) (λ policy_context.
        IsBlind-deferred (copy_with-IsBlind policy_context src dest)
          (IsBlind-wrapped _ (k.destroy policy_context)))
