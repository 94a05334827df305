-- ===== src/Collector/Policies.antt =====
-- Two mirrors that do the same under options that accept any signature, behind the collector.
use golang_imageindex_list.Prelude.{Bytes, codes, ◌≡◌, ◌∙◌, sym, ap, true, inl, inr}
use golang_imageindex_list.Exec.{Result-cases, Exec, ◌>>=◌}
use golang_imageindex_list.Os.{Os}
use golang_imageindex_list.World.{World, os_call}
use golang_imageindex_list.Options.{GlobalOptions}
use golang_imageindex_list.Manifest.{Manifest}
use golang_imageindex_list.Mirror.{Mirror}
use golang_imageindex_list.Mirror.Policies.{AgreeInsecure}
use golang_imageindex_list.Collector.Paths.{operator_cache_dir, release_cache_dir}
use golang_imageindex_list.Collector.Fetch.{copy_image_to, fetch_operator, fetch_release}
use golang_imageindex_list.Collector.Collect.{
  unless_cached, collect_operator, collect_release, collect,
}
use golang_imageindex_list.Collector.Branch.{
  open_log, open_log-returns, collect_is_operator, collect_is_release,
}

-- Any signature is accepted.
abbrev pub Insecure : {O : Os} → World O → Type 0
Insecure w = w.opts.global.insecure_policy ≡ true

module _ {O : Os} (manifest : Manifest O) {mirror mirror' : Mirror O}
    (agree : AgreeInsecure mirror mirror') where
  module _ (g : GlobalOptions) (w : World O) (insecure : Insecure w) where
    copy_image_to_same :
        (copy_dir : Bytes) → copy_image_to mirror g copy_dir w ≡ copy_image_to mirror' g copy_dir w
    unfolding copy_image_to os_call ◌>>=◌
    copy_image_to_same copy_dir = elim (Result-cases (O.mkdir_all w.os copy_dir).0) [
      | inl (_, e) ↦ rw e (agree.at _ _ _ _ insecure)
      | inr (d, e) ↦ rw e
    ]

    fetch_operator_same : fetch_operator manifest mirror g w ≡ fetch_operator manifest mirror' g w
    unfolding fetch_operator ◌>>=◌
    fetch_operator_same = rw (copy_image_to_same _)

    fetch_release_same : fetch_release manifest mirror g w ≡ fetch_release manifest mirror' g w
    unfolding fetch_release ◌>>=◌
    fetch_release_same = rw (copy_image_to_same _)

    unless_cached_same :
        (cache_dir : Bytes) (fetch fetch' : Exec (World O) (Unit {0}))
        → fetch w ≡ fetch' w
        → unless_cached cache_dir fetch w ≡ unless_cached cache_dir fetch' w
    unfolding unless_cached
    unless_cached_same cache_dir fetch fetch' h = rw h

    collect_operator_same :
        collect_operator manifest mirror g w ≡ collect_operator manifest mirror' g w
    unfolding collect_operator ◌>>=◌
    collect_operator_same = rw (
        unless_cached_same (operator_cache_dir g) (fetch_operator manifest mirror g)
          (fetch_operator manifest mirror' g) fetch_operator_same)

    collect_release_same :
        collect_release manifest mirror g w ≡ collect_release manifest mirror' g w
    unfolding collect_release ◌>>=◌
    collect_release_same = rw (
        unless_cached_same (release_cache_dir g) (fetch_release manifest mirror g)
          (fetch_release manifest mirror' g) fetch_release_same)

  module _ (w : World O) (insecure : Insecure w) where
    opened-Insecure : Insecure (open_log w).1
    opened-Insecure = ap (λ o. o.global.insecure_policy) (open_log-returns w).1 ∙ insecure

    pub collect_same_operator :
        w.opts.global.image_index ≡ codes "operator"
        → collect manifest mirror w ≡ collect manifest mirror' w
    collect_same_operator h =
        collect_is_operator manifest mirror w h
        ∙ (collect_operator_same w.opts.global (open_log w).1 opened-Insecure
            ∙ sym (collect_is_operator manifest mirror' w h))

    pub collect_same_release :
        w.opts.global.image_index ≡ codes "release"
        → collect manifest mirror w ≡ collect manifest mirror' w
    collect_same_release h =
        collect_is_release manifest mirror w h
        ∙ (collect_release_same w.opts.global (open_log w).1 opened-Insecure
            ∙ sym (collect_is_release manifest mirror' w h))
