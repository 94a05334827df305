-- ===== src/Cli/Kept.antt =====
-- What a run of the command leaves of the file system before it collects.
use mathlib.Core.Path.{subst}
use golang_imageindex_list.Prelude.{Bytes, codes, List, [], ◌++◌, ◌≡◌, sym, ap, ◌∙◌, not, bytes_eq}
use golang_imageindex_list.Exec.{
  Result, ok, err, Outcome, returned, failed, panicked, Exec, continue, gets, ◌>>=◌,
}
use golang_imageindex_list.Os.{Os}
use golang_imageindex_list.World.{World}
use golang_imageindex_list.World.Options.{KeepsOptions, KeepsOptions-try, KeepsOptions-os_call}
use golang_imageindex_list.Log.Keeps.{
  Keeps, Keeps-pure, Keeps-fail, Keeps-deref, Keeps-gets, Keeps-os_call, Keeps-try, Keeps-if,
  Keeps-log, Keeps-bind,
}
use golang_imageindex_list.Strings.{contains}
use golang_imageindex_list.Options.{GlobalOptions}
use golang_imageindex_list.Collector.Paths.{operator_image_dir, release_image_dir, logs_file}
use golang_imageindex_list.Collector.Collect.{log_failure}
use golang_imageindex_list.Collector.Branch.{open_log}
use golang_imageindex_list.Cli.Executor.{
  logs_dir, working_dir, check_type, validate, or_log, make_logged, prepare,
}
use golang_imageindex_list.Cli.Main.{after_run}
use golang_imageindex_list.Cli.Unchanged.{with_collect, make_logged-KeepsOptions}

-- `P` is kept where a run with these options writes before it collects: the logs are removed, four
-- directories and the log file made.
pub record IsPreparable (O : Os) (P : O.State → Type 0) (g : GlobalOptions) : Type 0 where
  pub remove_logs : (s : O.State) → P s → P (O.remove_all s logs_dir).1
  pub make_working : (s : O.State) → P s → P (O.mkdir_all s working_dir).1
  pub make_logs : (s : O.State) → P s → P (O.mkdir_all s logs_dir).1
  pub make_releases :
      (s : O.State) → P s → P (O.mkdir_all s (g.dir ++ codes "/" ++ release_image_dir)).1
  pub make_operators :
      (s : O.State) → P s → P (O.mkdir_all s (g.dir ++ codes "/" ++ operator_image_dir)).1
  pub make_log_file : (s : O.State) → P s → P (O.create s logs_file).1

module _ {O : Os} {P : O.State → Type 0} where
  check_type-Keeps : (image_type reference : Bytes) → Keeps O P (check_type image_type reference)
  unfolding check_type
  check_type-Keeps image_type reference =
      Keeps-if (bytes_eq image_type (codes "operator")) _ _
        (λ _.
          Keeps-if (not (contains reference (codes "operator"))) _ _ (λ _. Keeps-fail _)
            (λ _. Keeps-pure tt))
        (λ _.
          Keeps-if (bytes_eq image_type (codes "release")) _ _
            (λ _.
              Keeps-if (not (contains reference (codes "release"))) _ _ (λ _. Keeps-fail _)
                (λ _. Keeps-pure tt))
            (λ _. Keeps-fail _))

  pub validate-Keeps : (args : List Bytes) → Keeps O P (validate args)
  unfolding validate
  validate-Keeps args = Keeps-bind _ _ (Keeps-gets _) (λ reference.
      Keeps-if (bytes_eq reference []) _ _ (λ _. Keeps-fail _)
        (λ _.
          Keeps-bind _ _ (Keeps-deref _)
            (λ t. Keeps-bind _ _ (check_type-Keeps t reference) (λ _. Keeps-log _ _ _))))

  or_log-Keeps : (r : Result (Unit {0})) → Keeps O P (or_log r)
  unfolding or_log
  or_log-Keeps (ok _) = Keeps-pure tt
  or_log-Keeps (err e) = Keeps-bind _ _ (Keeps-log _ _ _) (λ _. Keeps-fail e)

  make_logged-Keeps :
      (c : Exec (World O) (Unit {0})) (dir : Bytes)
      → ((s : O.State) → P s → P (O.mkdir_all s dir).1)
      → Keeps O P (make_logged (with_collect c) dir)
  unfolding make_logged
  make_logged-Keeps c dir kept = Keeps-bind _ _ (Keeps-try _ (Keeps-os_call _ kept)) or_log-Keeps

  log_failure-Keeps :
      (format : Bytes) (r : Result (Unit {0})) → Keeps O P (log_failure {O = O} format r)
  unfolding log_failure
  log_failure-Keeps format (ok _) = Keeps-pure tt
  log_failure-Keeps format (err e) = Keeps-log _ _ _

  pub after_run-Keeps : (r : Result (Unit {0})) → Keeps O P (after_run {O = O} r)
  unfolding after_run
  after_run-Keeps (ok _) = Keeps-pure 0
  after_run-Keeps (err e) = Keeps-bind _ _ (Keeps-log _ _ _) (λ _. Keeps-pure 1)

module _ {O : Os} (P : O.State → Type 0) {A B : Type 0} where
  behind_gets :
      (f : World O → A) (n : A → Exec (World O) B) (w : World O)
      → P (n (f w) w).1.os
      → P ((gets f >>= n) w).1.os
  unfolding ◌>>=◌
  behind_gets f n w p = p

  -- What follows an action that leaves the options may rest on them.
  pub behind_options :
      (m : Exec (World O) A) (f : A → Exec (World O) B)
      → KeepsOptions O m
      → (w : World O) → P (m w).1.os
      → ((a : A) (now : World O) → now.opts ≡ w.opts → P now.os → P (f a now).1.os)
      → P ((m >>= f) w).1.os
  unfolding ◌>>=◌
  behind_options m f ko w p h = behind (m w).0 (m w).1 (ko.at w) p
    where
      behind :
          (r : Outcome A) (now : World O) → now.opts ≡ w.opts → P now.os → P (continue r f now).1.os
      behind (returned a) now same q = h a now same q
      behind (failed e) now same q = q
      behind panicked now same q = q

module _ {O : Os} {P : O.State → Type 0} {g : GlobalOptions} (k : IsPreparable O P g) where
  pub open_log-Keeps : Keeps O P (open_log {O = O})
  open_log-Keeps =
      Keeps-bind _ _ (Keeps-try _ (Keeps-os_call _ k.make_log_file)) (log_failure-Keeps _)

  pub prepare-Keeps :
      (c : Exec (World O) (Unit {0})) (w : World O)
      → w.opts.global.dir ≡ g.dir
      → P w.os
      → P (prepare (with_collect c) w).1.os
  unfolding prepare
  prepare-Keeps c w same p =
      behind_options P _ _ (KeepsOptions-try _ (KeepsOptions-os_call _)) w
        ((Keeps-try _ (Keeps-os_call _ k.remove_logs)).at w p)
        (λ _ now same1 p1.
          behind_options P _ _ (make_logged-KeepsOptions c working_dir) now
            ((make_logged-Keeps c working_dir k.make_working).at now p1)
            (λ _ now same2 p2.
              behind_options P _ _ (make_logged-KeepsOptions c logs_dir) now
                ((make_logged-Keeps c logs_dir k.make_logs).at now p2)
                (λ _ now same3 q.
                  let dir =
                    ap (λ o. o.global.dir) same3
                    ∙ (ap (λ o. o.global.dir) same2 ∙ (ap (λ o. o.global.dir) same1 ∙ same)) in
                  behind_gets P (λ v. v.opts.global.dir) _ now
                    ((Keeps-bind _ _ (Keeps-log _ _ _) (λ _.
                        Keeps-bind _ _
                          (make_logged-Keeps c _ (
                            subst
                              (λ d.
                                (s : O.State)
                                → P s
                                → P (O.mkdir_all s (d ++ codes "/" ++ release_image_dir)).1)
                              (sym dir) k.make_releases))
                          (λ _. Keeps-bind _ _ (Keeps-log _ _ _) (λ _. make_logged-Keeps c _ (
                            subst
                              (λ d.
                                (s : O.State)
                                → P s
                                → P (O.mkdir_all s (d ++ codes "/" ++ operator_image_dir)).1)
                              (sym dir) k.make_operators))))).at
                      now q))))
