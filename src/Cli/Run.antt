-- ===== src/Cli/Run.antt =====
-- `Run` makes its directories before it collects.
use golang_imageindex_list.Prelude.{
  Bytes, List, codes, [], ◌∷◌, ◌++◌, ◌≡◌, ◌∙◌, ◌⊎◌, inl, inr, refl, sym, ap,
}
use golang_imageindex_list.Exec.{Exec, failed, ok, err, ◌>>=◌}
use golang_imageindex_list.Exec.Laws.{bind_returned, bind_failed}
use golang_imageindex_list.Os.{Os}
use golang_imageindex_list.World.{World, os_call}
use golang_imageindex_list.Log.Reports.{logged}
use golang_imageindex_list.Collector.Paths.{operator_image_dir, release_image_dir}
use golang_imageindex_list.Cli.Executor.{working_dir, logs_dir, make_logged, or_log, prepare, run}
use golang_imageindex_list.Cli.Unchanged.{with_collect}
use golang_imageindex_list.Cli.Prepared.{run_dirs, dropped, make_logged-returned}

-- Of the directories, made one after the other, one cannot be made where its turn comes, with
-- that error.
unfoldable pub Blocks : (O : Os) → O.State → List Bytes → Bytes → Type 0
Blocks O s [] e = ⊥
Blocks O s (dir ∷ dirs) e =
    ((O.mkdir_all s dir).0 ≡ err e)
    ⊎ (((O.mkdir_all s dir).0 ≡ ok tt) × Blocks O (O.mkdir_all s dir).1 dirs e)

module _ {O : Os} where
  -- One of the four calls that `Run` makes of `os.MkdirAll` fails, with that error.
  abbrev pub IsBlocked : World O → Bytes → Type 0
  IsBlocked w e = Blocks O (O.remove_all w.os logs_dir).1 (run_dirs w.opts.global.dir) e

  module _ (c : Exec (World O) (Unit {0})) (e : Bytes) where
    make_logged-fails :
        (dir : Bytes) (w : World O)
        → (O.mkdir_all w.os dir).0 ≡ err e
        → make_logged (with_collect c) dir w ≡ (failed e, (make_logged (with_collect c) dir w).1)
    unfolding make_logged or_log os_call ◌>>=◌
    make_logged-fails dir w h = rw h

    prepare-fails : (w : World O) → IsBlocked w e → (prepare (with_collect c) w).0 ≡ failed e
    unfolding prepare Blocks logged os_call ◌>>=◌
    prepare-fails w (inl first) =
        ap (λ r. r.0)
          (dropped (O.remove_all w.os logs_dir).0 _ _
            ∙ bind_failed (make_logged (with_collect c) working_dir) _
                (make_logged-fails working_dir _ first))
    prepare-fails w (inr (first, inl second)) =
        ap (λ r. r.0)
          (dropped (O.remove_all w.os logs_dir).0 _ _
            ∙ (bind_returned (make_logged (with_collect c) working_dir) _
                  (make_logged-returned c working_dir _ first)
                ∙ bind_failed (make_logged (with_collect c) logs_dir) _
                    (make_logged-fails logs_dir _ second)))
    prepare-fails w (inr (first, inr (second, inl third))) =
        ap (λ r. r.0)
          (dropped (O.remove_all w.os logs_dir).0 _ _
            ∙ (bind_returned (make_logged (with_collect c) working_dir) _
                  (make_logged-returned c working_dir _ first)
                ∙ (bind_returned (make_logged (with_collect c) logs_dir) _
                      (make_logged-returned c logs_dir _ second)
                    ∙ bind_failed
                        (make_logged (with_collect c)
                          (w.opts.global.dir ++ codes "/" ++ release_image_dir))
                        _ (make_logged-fails _ _ third))))
    prepare-fails w (inr (first, inr (second, inr (third, inl fourth)))) =
        ap (λ r. r.0)
          (dropped (O.remove_all w.os logs_dir).0 _ _
            ∙ (bind_returned (make_logged (with_collect c) working_dir) _
                  (make_logged-returned c working_dir _ first)
                ∙ (bind_returned (make_logged (with_collect c) logs_dir) _
                      (make_logged-returned c logs_dir _ second)
                    ∙ (bind_returned
                          (make_logged (with_collect c)
                            (w.opts.global.dir ++ codes "/" ++ release_image_dir))
                          _ (make_logged-returned c _ _ third)
                        ∙ make_logged-fails (w.opts.global.dir ++ codes "/" ++ operator_image_dir) _
                            fourth))))
    prepare-fails w (inr (first, inr (second, inr (third, inr (fourth, never))))) = absurd never

  prepare_same :
      (c c' : Exec (World O) (Unit {0})) → prepare (with_collect c) ≡ prepare (with_collect c')
  unfolding prepare make_logged
  prepare_same c c' = refl

  run-fails :
      (c : Exec (World O) (Unit {0})) (e : Bytes) (w : World O)
      → IsBlocked w e
      → run (with_collect c) w ≡ (failed e, (prepare (with_collect c) w).1)
  unfolding run
  run-fails c e w blocked =
      bind_failed (prepare (with_collect c)) (λ _. c)
        (λ i. (prepare-fails c e w blocked i, (prepare (with_collect c) w).1))

  -- If one of the four directories of this run cannot be made where its turn comes, `Run` fails with
  -- the error of `os.MkdirAll`, and the collector is not called: any two collectors give the same run.
  pub run_blocked :
      (c c' : Exec (World O) (Unit {0})) (e : Bytes) (w : World O)
      → IsBlocked w e
      → ((run (with_collect c) w).0 ≡ failed e) × (run (with_collect c) w ≡ run (with_collect c') w)
  run_blocked c c' e w blocked = (
    ap (λ r. r.0) (run-fails c e w blocked),
    run-fails c e w blocked
        ∙ (ap (λ m. (failed e, (m w).1)) (prepare_same c c') ∙ sym (run-fails c' e w blocked)),
  )
