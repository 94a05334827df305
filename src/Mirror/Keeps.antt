-- ===== src/Mirror/Keeps.antt =====
-- What a copy leaves of the file system: what the image libraries leave.
use golang_imageindex_list.Prelude.{Bytes, List, inl, inr, Option-cases, is_empty, ◌≡◌, refl}
use golang_imageindex_list.Prelude.Int.{ℤ}
use golang_imageindex_list.Exec.{Result, ok, err, Exec, lift, wrapped, modify, ◌>>=◌}
use golang_imageindex_list.Os.{Os}
use golang_imageindex_list.World.{World}
use golang_imageindex_list.Log.Keeps.{
  Keeps, Keeps-pure, Keeps-lift, Keeps-gets, Keeps-wrapped, Keeps-if, Keeps-print, Keeps-bind,
  Keeps-for_each,
}
use golang_imageindex_list.Options.{CopyOptions, DeprecatedTlsVerifyOption}
use golang_imageindex_list.Options.Contexts.{
  Context, PolicySource, accept_anything, default_policy, from_file, policy_source,
}
use golang_imageindex_list.Mirror.Images.{Images, ImageCopyOptions}
use golang_imageindex_list.Mirror.Copy.{
  deferred, warn_if_used, reexec_if_necessary_for_images, choose_policy, get_policy_context,
  manifest_type, attempt, obtain_policy, copy_with, copy,
}

-- The image libraries keep `P`, when they copy to the destination; a retry keeps it if what is tried
-- does.
pub record KeepsImages {O : Os} (P : O.State → Type 0) (images : Images O) (dest : Bytes)
    : Type 0 where
  pub warn : (message : Bytes) → Keeps O P (images.warn message)
  pub default_policy : Keeps O P images.default_policy
  pub policy_from_file : (path : Bytes) → Keeps O P (images.policy_from_file path)
  pub new_policy_context : (policy : images.Policy) → Keeps O P (images.new_policy_context policy)
  pub destroy : (context : images.PolicyContext) → Keeps O P (images.destroy context)
  pub copy_image :
      (c : Context) (policy_context : images.PolicyContext)
      (dest_ref src_ref : images.ImageReference) (opts : ImageCopyOptions)
      → images.parse_image_name dest ≡ ok dest_ref
      → Keeps O P (images.copy_image c policy_context dest_ref src_ref opts)
  pub if_necessary :
      (c : Context) (operation : Exec (World O) (Unit {0})) (times : ℤ)
      → Keeps O P operation
      → Keeps O P (images.if_necessary c operation times)

module _ {O : Os} {P : O.State → Type 0} where
  Keeps-deferred :
      {A : Type 0} (body : Exec (World O) A) (cleanup : Exec (World O) (Unit {0}))
      → Keeps O P body
      → Keeps O P cleanup
      → Keeps O P (deferred body cleanup)
  unfolding deferred
  Keeps-deferred body cleanup kb kc = record { at = λ w p. kc.at (body w).1 (kb.at w p) }

  -- What follows a result may rest on it.
  Keeps-after :
      {A B : Type 0} (wrap : Bytes → Bytes) (r : Result A) (f : A → Exec (World O) B)
      → ((a : A) → r ≡ ok a → Keeps O P (f a))
      → Keeps O P (wrapped wrap (lift r) >>= f)
  unfolding ◌>>=◌
  Keeps-after wrap (ok a) f k = record { at = (k a refl).at }
  Keeps-after wrap (err e) f k = record { at = λ w p. p }

  module _ {images : Images O} {dest : Bytes} (k : KeepsImages P images dest) where
    warn_if_used-Keeps :
        (o : DeprecatedTlsVerifyOption) (alternatives : List Bytes)
        → Keeps O P (warn_if_used images o alternatives)
    unfolding warn_if_used
    warn_if_used-Keeps o alternatives = elim (Option-cases o.tls_verify) [
      | inl unset ↦ rw unset (Keeps-pure tt)
      | inr (b, set) ↦ rw set (k.warn _)
    ]

    choose_policy-Keeps : (source : PolicySource) → Keeps O P (choose_policy images source)
    unfolding choose_policy
    choose_policy-Keeps accept_anything = Keeps-pure _
    choose_policy-Keeps default_policy = k.default_policy
    choose_policy-Keeps (from_file path) = k.policy_from_file path

    manifest_type-Keeps : (opts : CopyOptions) → Keeps O P (manifest_type images opts)
    unfolding manifest_type
    manifest_type-Keeps opts =
        Keeps-if (is_empty opts.format) _ _ (λ _. Keeps-pure _) (λ _. Keeps-lift _)

    Keeps-options :
        (f : CopyOptions → CopyOptions)
        → Keeps O P (modify (λ (w : World O). record w { opts = f w.opts }))
    unfolding modify
    Keeps-options f = record { at = λ w p. p }

    obtain_policy-Keeps : (src : Bytes) → Keeps O P (obtain_policy images src dest)
    unfolding obtain_policy reexec_if_necessary_for_images get_policy_context
    obtain_policy-Keeps src = Keeps-bind _ _ (Keeps-gets _) (λ opts.
        Keeps-bind _ _ (warn_if_used-Keeps opts.deprecated_tls_verify _) (λ _.
          Keeps-bind _ _ (Keeps-options _) (λ _.
            Keeps-bind _ _ (Keeps-for_each _ _ (λ name. Keeps-print _)) (λ _. Keeps-wrapped _ _ (
              Keeps-bind _ _ (choose_policy-Keeps (policy_source opts.global))
                (λ policy. k.new_policy_context policy))))))

    copy_with-Keeps :
        (policy_context : images.PolicyContext) (src : Bytes)
        → Keeps O P (copy_with images policy_context src dest)
    unfolding copy_with attempt
    copy_with-Keeps policy_context src =
        Keeps-bind _ _ (Keeps-wrapped _ _ (Keeps-lift _)) (λ src_ref.
          Keeps-after _ _ _ (λ dest_ref parsed. Keeps-bind _ _ (Keeps-gets _) (λ opts.
            Keeps-bind _ _ (manifest_type-Keeps opts) (λ mime_type. k.if_necessary _ _ _ (
              Keeps-bind _ _ (k.copy_image _ policy_context dest_ref src_ref _ parsed)
                (λ _. Keeps-pure tt))))))

    -- A copy keeps what the image libraries keep.
    pub copy-Keeps : (src : Bytes) → Keeps O P (copy images src dest)
    unfolding copy
    copy-Keeps src = Keeps-bind _ _ (obtain_policy-Keeps src) (λ policy_context.
        Keeps-deferred _ _ (copy_with-Keeps policy_context src)
          (Keeps-wrapped _ _ (k.destroy policy_context)))
