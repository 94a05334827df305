-- ===== src/Collector/Safe.antt =====
-- `Collect` does not panic on the images that its copies leave.
use mathlib.Core.Path.{subst}
use golang_imageindex_list.Prelude.{Bytes, codes, Bool-cases, inl, inr, ◌⊎◌, ◌≡◌, ◌≢◌, sym}
use golang_imageindex_list.Exec.{Result, ok, err, Exec, pure, returned, panicked}
use golang_imageindex_list.Exec.Safe.{
  IsSafe, IsSafe-pure, IsSafe-modify, IsSafe-try, IsSafe-bind, IsSafe-for_every, bind_safe_at,
  bind_safe_returned,
}
use golang_imageindex_list.Os.{Os}
use golang_imageindex_list.World.{World}
use golang_imageindex_list.World.Safe.{IsSafe-os_call, IsSafe-os_read}
use golang_imageindex_list.Options.{GlobalOptions}
use golang_imageindex_list.Manifest.Formats.{Formats}
use golang_imageindex_list.Manifest.Layers.{is_missing}
use golang_imageindex_list.Manifest.Layers.Panics.{extract_layers_oci-IsSafe}
use golang_imageindex_list.Manifest.Service as ManifestService
use golang_imageindex_list.Mirror.{Mirror}
use golang_imageindex_list.Collector.Paths.{
  operator_cache_dir, operator_copy_dir, release_cache_dir, release_copy_dir,
}
use golang_imageindex_list.Collector.Fetch.{copy_image_to, fetch_operator, fetch_release}
use golang_imageindex_list.Collector.Layouts.{operator_layout_extracted, release_layout_extracted}
use golang_imageindex_list.Collector.Trust.{
  IsSafeMirror, IsImageLayout, IsOperatorLayout, CopiesLayout,
}
use golang_imageindex_list.Collector.Service.{listing-IsSafe, release-IsSafe}
use golang_imageindex_list.Collector.Branch.{open_log, collect_is_operator, collect_is_release}
use golang_imageindex_list.Collector.Collect.{
  log_failure, unless_cached, list_components, list_operator, list_operators, list_release,
  collect_operator, collect_release, collect,
}

module _ {O : Os} where
  copy_image_to-IsSafe :
      {mirror : Mirror O}
      → IsSafeMirror mirror
      → (g : GlobalOptions) (dir : Bytes) → IsSafe (copy_image_to mirror g dir)
  unfolding copy_image_to
  copy_image_to-IsSafe m g dir =
      IsSafe-bind _ _ (IsSafe-os_call _) (λ _. IsSafe-bind _ _ (IsSafe-modify _) (λ _. m.run _ _ _))

  log_failure-IsSafe :
      (format : Bytes) (r : Result (Unit {0})) → IsSafe (log_failure {O = O} format r)
  unfolding log_failure
  log_failure-IsSafe format (ok _) = IsSafe-pure tt
  log_failure-IsSafe format (err e) = IsSafe-modify _

  unless_cached_safe :
      (dir : Bytes) (fetch : Exec (World O) (Unit {0})) (w : World O)
      → (fetch w).0 ≢ panicked
      → (unless_cached dir fetch w).0 ≢ panicked
  unfolding unless_cached pure
  unless_cached_safe dir fetch w k = elim (Bool-cases (is_missing (O.stat w.os dir))) [
    | inl absent ↦ rw absent k
    | inr there ↦ rw there (λ p. cc)
  ]

module _ {O : Os} (formats : Formats) (g : GlobalOptions) where
  list_operators-IsSafe : IsSafe (list_operators (ManifestService.service {O = O} formats) g)
  unfolding list_operators list_operator
  list_operators-IsSafe = IsSafe-bind _ _ (IsSafe-os_read _) (λ files.
      IsSafe-bind _ _ (IsSafe-modify _) (λ _. IsSafe-bind _ _ (IsSafe-modify _) (λ _.
        IsSafe-for_every files _ (λ file. IsSafe-bind _ _ (IsSafe-modify _) (λ _.
          IsSafe-bind _ _ (IsSafe-try _ (listing-IsSafe formats _ file))
            (λ r. log_failure-IsSafe _ r))))))

  list_release-IsSafe : IsSafe (list_release (ManifestService.service {O = O} formats) g)
  unfolding list_release list_components
  list_release-IsSafe = IsSafe-bind _ _ (IsSafe-modify _) (λ _.
      IsSafe-bind _ _ (IsSafe-modify _) (λ _.
        IsSafe-bind _ _ (release-IsSafe formats _)
          (λ images. IsSafe-for_every images _ (λ img. IsSafe-modify _))))

module _ {O : Os} (formats : Formats) {mirror : Mirror O} (s : IsSafeMirror mirror)
    (g : GlobalOptions) (w : World O) where
  fetch_operator_safe :
      ((now : World O)
        → copy_image_to mirror g (operator_copy_dir g) w ≡ (returned tt, now)
        → IsOperatorLayout O formats (operator_copy_dir g) now.os)
      → (fetch_operator (ManifestService.service formats) mirror g w).0 ≢ panicked
  unfolding fetch_operator
  fetch_operator_safe copies =
      bind_safe_returned (copy_image_to mirror g (operator_copy_dir g)) _ w
        ((copy_image_to-IsSafe s g (operator_copy_dir g)).at w)
        (λ a e.
          let now = (copy_image_to mirror g (operator_copy_dir g) w).1 in
          let copied : copy_image_to mirror g (operator_copy_dir g) w ≡ (returned tt, now) =
            λ i. (e i, now) in
          let o = copies now copied in
          subst (λ r. r.0 ≢ panicked)
            (sym (
              operator_layout_extracted formats mirror g w now o.base.index o.base.image o.base.hex
                o.config o.config_hex copied o.base.layout o.digest o.digits o.config_there))
            ((extract_layers_oci-IsSafe formats _ _ _ o.base.image o.base.layers).at _))

  fetch_release_safe :
      ((now : World O)
        → copy_image_to mirror g (release_copy_dir g) w ≡ (returned tt, now)
        → IsImageLayout O formats (release_copy_dir g) now.os)
      → (fetch_release (ManifestService.service formats) mirror g w).0 ≢ panicked
  unfolding fetch_release
  fetch_release_safe copies =
      bind_safe_returned (copy_image_to mirror g (release_copy_dir g)) _ w
        ((copy_image_to-IsSafe s g (release_copy_dir g)).at w)
        (λ a e.
          let now = (copy_image_to mirror g (release_copy_dir g) w).1 in
          let copied : copy_image_to mirror g (release_copy_dir g) w ≡ (returned tt, now) =
            λ i. (e i, now) in
          let o = copies now copied in
          subst (λ r. r.0 ≢ panicked)
            (sym (
              release_layout_extracted formats mirror g w now o.index o.image o.hex copied
                o.layout))
            ((extract_layers_oci-IsSafe formats _ _ _ o.image o.layers).at _))

module _ {O : Os} (formats : Formats) {mirror : Mirror O} (s : IsSafeMirror mirror)
    (w : World O) where
  -- If the mirror component does not panic, and its copy, if it succeeds, leaves an OCI image layout
  -- whose documents are there and whose digests have a colon, then `Collect` does not panic on a
  -- request for operators or for a release, whatever else is on the disk and whatever calls fail.
  pub collect_safe :
      CopiesLayout formats mirror w
      → (w.opts.global.image_index ≡ codes "operator")
        ⊎ (w.opts.global.image_index ≡ codes "release")
      → (collect (ManifestService.service formats) mirror w).0 ≢ panicked
  unfolding collect_operator collect_release
  collect_safe copies (inl is_operator) =
      subst (λ r. r.0 ≢ panicked)
        (sym (collect_is_operator (ManifestService.service formats) mirror w is_operator))
        (bind_safe_at _ _ (open_log w).1
          (unless_cached_safe (operator_cache_dir w.opts.global) _ (open_log w).1 (
            fetch_operator_safe formats s w.opts.global (open_log w).1
              (λ now. copies.operator now is_operator)))
          (λ _ _. (list_operators-IsSafe formats w.opts.global).at _))
  collect_safe copies (inr is_release) =
      subst (λ r. r.0 ≢ panicked)
        (sym (collect_is_release (ManifestService.service formats) mirror w is_release))
        (bind_safe_at _ _ (open_log w).1
          (unless_cached_safe (release_cache_dir w.opts.global) _ (open_log w).1 (
            fetch_release_safe formats s w.opts.global (open_log w).1
              (λ now. copies.release now is_release)))
          (λ _ _. (list_release-IsSafe formats w.opts.global).at _))
