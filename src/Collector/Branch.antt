-- ===== src/Collector/Branch.antt =====
-- `Collect` on the two image types that `Validate` lets through.
use golang_imageindex_list.Prelude.{
  Bytes, codes, true, false, ◌≡◌, refl, ap, sym, ◌∙◌, if◌then◌else◌,
}
use golang_imageindex_list.Exec.{
  Result, ok, err, Outcome, returned, failed, panicked, outcome, caught, Exec, continue, pure, gets,
  try, ◌>>=◌, ◌>>◌,
}
use golang_imageindex_list.Exec.Laws.{bind_assoc, bind_returned}
use golang_imageindex_list.Strings.{contains}
use golang_imageindex_list.Options.{GlobalOptions}
use golang_imageindex_list.Os.{Os}
use golang_imageindex_list.World.{World, os_call}
use golang_imageindex_list.Manifest.{Manifest}
use golang_imageindex_list.Mirror.{Mirror}
use golang_imageindex_list.Collector.Paths.{logs_file}
use golang_imageindex_list.Collector.Fetch.{err_msg}
use golang_imageindex_list.Collector.Collect.{
  log_failure, collect_operator, collect_release, collect,
}

-- The creation of the log file. Its error is logged.
abbrev pub open_log : {O : Os} → Exec (World O) (Unit {0})
open_log {O} = do
  created ← try (os_call {O = O} (λ s. O.create s logs_file))
  log_failure err_msg created

module _ {O : Os} where
  log_failure-returns :
      (format : Bytes) (r : Result (Unit {0})) (w : World O)
      → ((log_failure format r w).0 ≡ returned tt) × ((log_failure format r w).1.opts ≡ w.opts)
  unfolding log_failure ◌>>=◌
  log_failure-returns format (ok _) w = (refl, refl)
  log_failure-returns format (err e) w = (refl, refl)

  opened :
      (r : Result (Unit {0})) (w : World O)
      → let now =
          continue (caught (outcome r) w).0 (log_failure err_msg) (caught (outcome r) w).1 in
        (now.0 ≡ returned tt) × (now.1.opts ≡ w.opts)
  opened (ok a) w = log_failure-returns err_msg (ok a) w
  opened (err e) w = log_failure-returns err_msg (err e) w

  -- The creation of the log file returns, and leaves the options.
  pub open_log-returns :
      (w : World O) → ((open_log w).0 ≡ returned tt) × ((open_log w).1.opts ≡ w.opts)
  unfolding ◌>>=◌ os_call
  open_log-returns w =
      opened (O.create w.os logs_file).0 (record w { os = (O.create w.os logs_file).1 })

  ends_with_unit : (r : Outcome (Unit {0})) (w : World O) → continue r (λ _. pure tt) w ≡ (r, w)
  unfolding ◌>>=◌
  ends_with_unit (returned a) w = refl
  ends_with_unit (failed e) w = refl
  ends_with_unit panicked w = refl

names_operator :
    {t : Bytes}
    → t ≡ codes "operator"
    → (contains t (codes "operator") ≡ true) × (contains t (codes "release") ≡ false)
unfolding contains
names_operator h = rw h (refl, refl)

names_release :
    {t : Bytes}
    → t ≡ codes "release"
    → (contains t (codes "operator") ≡ false) × (contains t (codes "release") ≡ true)
unfolding contains
names_release h = rw h (refl, refl)

module _ {O : Os} (manifest : Manifest O) (mirror : Mirror O) where
  -- `Collect` behind the creation of the log file.
  abbrev pub lists : GlobalOptions → Exec (World O) (Unit {0})
  lists g = do
    if contains g.image_index (codes "operator")
        then collect_operator manifest mirror g
        else pure tt
    if contains g.image_index (codes "release") then collect_release manifest mirror g else pure tt

  open_then_lists :
      (w : World O) → collect manifest mirror w ≡ lists (open_log w).1.opts.global (open_log w).1
  unfolding collect contains gets ◌>>=◌
  open_then_lists w =
      (λ i.
        sym
          (bind_assoc (try (os_call {O = O} (λ s. O.create s logs_file))) (log_failure err_msg)
            (λ _. gets (λ w. w.opts.global) >>= lists))
          i w)
      ∙ bind_returned open_log (λ _. gets (λ w. w.opts.global) >>= lists)
          (λ i. ((open_log-returns w).0 i, (open_log w).1))

  lists_operator :
      (g : GlobalOptions) (w : World O)
      → g.image_index ≡ codes "operator"
      → lists g w ≡ collect_operator manifest mirror g w
  unfolding ◌>>=◌
  lists_operator g w h =
      rw ((names_operator h).0, (names_operator h).1)
        (ends_with_unit (collect_operator manifest mirror g w).0
          (collect_operator manifest mirror g w).1)

  lists_release :
      (g : GlobalOptions) (w : World O)
      → g.image_index ≡ codes "release"
      → lists g w ≡ collect_release manifest mirror g w
  unfolding ◌>>=◌
  lists_release g w h = rw ((names_release h).0, (names_release h).1)

  -- Behind the creation of the log file, the collector does what one of its branches does, and no
  -- more.
  pub data ListsOne (image_type : Bytes) (w : World O) : Type 0 where
    operator :
        image_type ≡ codes "operator"
        → collect manifest mirror w ≡ collect_operator manifest mirror w.opts.global (open_log w).1
        → ListsOne image_type w
    release :
        image_type ≡ codes "release"
        → collect manifest mirror w ≡ collect_release manifest mirror w.opts.global (open_log w).1
        → ListsOne image_type w

  opened_lists : (w : World O) → collect manifest mirror w ≡ lists w.opts.global (open_log w).1
  opened_lists w =
      open_then_lists w ∙ ap (λ o. lists o.global (open_log w).1) (open_log-returns w).1

  pub collect_is_operator :
      (w : World O)
      → w.opts.global.image_index ≡ codes "operator"
      → collect manifest mirror w ≡ collect_operator manifest mirror w.opts.global (open_log w).1
  collect_is_operator w h = opened_lists w ∙ lists_operator w.opts.global (open_log w).1 h

  pub collect_is_release :
      (w : World O)
      → w.opts.global.image_index ≡ codes "release"
      → collect manifest mirror w ≡ collect_release manifest mirror w.opts.global (open_log w).1
  collect_is_release w h = opened_lists w ∙ lists_release w.opts.global (open_log w).1 h

  pub collects_operator :
      (w : World O)
      → w.opts.global.image_index ≡ codes "operator"
      → ListsOne w.opts.global.image_index w
  collects_operator w h = operator h (collect_is_operator w h)

  pub collects_release :
      (w : World O)
      → w.opts.global.image_index ≡ codes "release"
      → ListsOne w.opts.global.image_index w
  collects_release w h = release h (collect_is_release w h)
