-- ===== src/Cli/Prepared.antt =====
-- `Run` when its directories can be made.
use golang_imageindex_list.Prelude.{Bytes, List, codes, [], ◌∷◌, ◌++◌, ◌≡◌, refl, ap, ◌∙◌}
use golang_imageindex_list.Exec.{Result, returned, ok, err, outcome, caught, continue, Exec, ◌>>=◌}
use golang_imageindex_list.Exec.Laws.{bind_returned}
use golang_imageindex_list.Os.{Os}
use golang_imageindex_list.World.{World, trace, os_call}
use golang_imageindex_list.Log.Reports.{Message, logged, logged-two}
use golang_imageindex_list.Collector.Paths.{operator_image_dir, release_image_dir}
use golang_imageindex_list.Cli.Executor.{
  Executor, working_dir, logs_dir, mkdir_all, make_logged, or_log, prepare, run,
}

-- The directories are made one after the other, beginning with this disk.
unfoldable pub Makes : (O : Os) → O.State → List Bytes → Type 0
Makes O s [] = Unit
Makes O s (dir ∷ dirs) = ((O.mkdir_all s dir).0 ≡ ok tt) × Makes O (O.mkdir_all s dir).1 dirs

-- The directories that `Run` makes, in order.
abbrev pub run_dirs : Bytes → List Bytes
run_dirs dir =
    working_dir
    ∷ logs_dir
    ∷ (dir ++ codes "/" ++ release_image_dir)
    ∷ (dir ++ codes "/" ++ operator_image_dir)
    ∷ []

module _ {O : Os} where
  -- The logs removed, and the four directories made.
  abbrev pub with_dirs : Bytes → Bytes → World O → World O
  with_dirs release_dir operator_dir w = record w {
    os =
        (O.mkdir_all
          (O.mkdir_all
            (O.mkdir_all (O.mkdir_all (O.remove_all w.os logs_dir).1 working_dir).1 logs_dir).1
            release_dir).1
          operator_dir).1;
  }

  abbrev pub release_trace : World O → Message
  release_trace w = (
    trace,
    (
      codes "creating release cache directory %s ",
      (w.opts.global.dir ++ codes "/" ++ release_image_dir) ∷ [],
    ),
  )

  abbrev pub operator_trace : World O → Message
  operator_trace w = (
    trace,
    (
      codes "creating operator cache directory %s ",
      (w.opts.global.dir ++ codes "/" ++ operator_image_dir) ∷ [],
    ),
  )

  -- The state in which the collector is called.
  unfoldable pub prepared : World O → World O
  prepared w = logged (release_trace w ∷ operator_trace w ∷ []) (
      with_dirs (w.opts.global.dir ++ codes "/" ++ release_image_dir)
        (w.opts.global.dir ++ codes "/" ++ operator_image_dir) w)

  pub prepared-opts : (w : World O) → (prepared w).opts ≡ w.opts
  unfolding prepared logged
  prepared-opts w = refl

  pub dropped :
      {A B : Type 0} (r : Result A) (now : World O) (m : Exec (World O) B)
      → continue (caught (outcome r) now).0 (λ _. m) (caught (outcome r) now).1 ≡ m now
  dropped (ok a) now m = refl
  dropped (err e) now m = refl

  -- The four calls that `Run` makes of `os.MkdirAll` succeed.
  abbrev pub IsMade : World O → Type 0
  IsMade w = Makes O (O.remove_all w.os logs_dir).1 (run_dirs w.opts.global.dir)

  module _ (c : Exec (World O) (Unit {0})) where
    abbrev executor : Executor O
    executor = record { collect = c; make_dir = mkdir_all }

    pub make_logged-returned :
        (dir : Bytes) (w : World O)
        → (O.mkdir_all w.os dir).0 ≡ ok tt
        → make_logged executor dir w ≡ (returned tt, record w { os = (O.mkdir_all w.os dir).1 })
    unfolding make_logged or_log os_call ◌>>=◌
    make_logged-returned dir w made = rw made

    prepare-returned : (w : World O) → IsMade w → prepare executor w ≡ (returned tt, prepared w)
    unfolding prepare prepared logged os_call Makes ◌>>=◌
    prepare-returned w (first, (second, (third, (fourth, _)))) =
        dropped (O.remove_all w.os logs_dir).0 _ _
        ∙ (bind_returned (make_logged executor working_dir) _
              (make_logged-returned working_dir _ first)
            ∙ (bind_returned (make_logged executor logs_dir) _
                  (make_logged-returned logs_dir _ second)
                ∙ (bind_returned
                      (make_logged executor (w.opts.global.dir ++ codes "/" ++ release_image_dir)) _
                      (make_logged-returned _ _ third)
                    ∙ (make_logged-returned (w.opts.global.dir ++ codes "/" ++ operator_image_dir) _
                          fourth
                        ∙ ap (λ now. (returned tt, now))
                            (logged-two (release_trace w) (operator_trace w) _)))))

    -- If its four directories can be made, `Run` removes the logs, whether that succeeds or not, makes
    -- the directories in order, logs two lines, and does what the collector does in that state.
    pub run_prepared :
        (w : World O)
        → IsMade w
        → run (record { collect = c; make_dir = mkdir_all }) w ≡ c (prepared w)
    unfolding run
    run_prepared w made = bind_returned (prepare executor) (λ _. c) (prepare-returned w made)
