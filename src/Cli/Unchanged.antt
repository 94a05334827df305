-- ===== src/Cli/Unchanged.antt =====
-- The steps of the command that leave the options.
use golang_imageindex_list.Prelude.{Bytes, codes, List, [], not, bytes_eq}
use golang_imageindex_list.Exec.{Result, ok, err, Exec}
use golang_imageindex_list.Os.{Os}
use golang_imageindex_list.World.{World}
use golang_imageindex_list.World.Options.{
  KeepsOptions, KeepsOptions-pure, KeepsOptions-fail, KeepsOptions-deref, KeepsOptions-gets,
  KeepsOptions-os_call, KeepsOptions-try, KeepsOptions-if, KeepsOptions-log, KeepsOptions-bind,
}
use golang_imageindex_list.Strings.{contains}
use golang_imageindex_list.Cli.Executor.{
  Executor, check_type, validate, or_log, make_logged, mkdir_all, prepare,
}

module _ {O : Os} where
  check_type-KeepsOptions :
      (image_type reference : Bytes) → KeepsOptions O (check_type image_type reference)
  unfolding check_type
  check_type-KeepsOptions image_type reference =
      KeepsOptions-if (bytes_eq image_type (codes "operator")) _ _
        (KeepsOptions-if (not (contains reference (codes "operator"))) _ _ (KeepsOptions-fail _)
          (KeepsOptions-pure tt))
        (KeepsOptions-if (bytes_eq image_type (codes "release")) _ _
          (KeepsOptions-if (not (contains reference (codes "release"))) _ _ (KeepsOptions-fail _)
            (KeepsOptions-pure tt))
          (KeepsOptions-fail _))

  pub validate-KeepsOptions : (args : List Bytes) → KeepsOptions O (validate args)
  unfolding validate
  validate-KeepsOptions args = KeepsOptions-bind _ _ (KeepsOptions-gets _) (λ reference.
      KeepsOptions-if (bytes_eq reference []) _ _ (KeepsOptions-fail _) (
        KeepsOptions-bind _ _ (KeepsOptions-deref _) (λ t.
          KeepsOptions-bind _ _ (check_type-KeepsOptions t reference)
            (λ _. KeepsOptions-log _ _ _))))

  or_log-KeepsOptions : (r : Result (Unit {0})) → KeepsOptions O (or_log r)
  unfolding or_log
  or_log-KeepsOptions (ok _) = KeepsOptions-pure tt
  or_log-KeepsOptions (err e) =
      KeepsOptions-bind _ _ (KeepsOptions-log _ _ _) (λ _. KeepsOptions-fail e)

  module _ (c : Exec (World O) (Unit {0})) where
    abbrev pub with_collect : Executor O
    with_collect = record { collect = c; make_dir = mkdir_all }

    pub make_logged-KeepsOptions : (dir : Bytes) → KeepsOptions O (make_logged with_collect dir)
    unfolding make_logged
    make_logged-KeepsOptions dir =
        KeepsOptions-bind _ _ (KeepsOptions-try _ (KeepsOptions-os_call _)) or_log-KeepsOptions

    pub prepare-KeepsOptions : KeepsOptions O (prepare with_collect)
    unfolding prepare
    prepare-KeepsOptions = KeepsOptions-bind _ _ (KeepsOptions-try _ (KeepsOptions-os_call _)) (λ _.
        KeepsOptions-bind _ _ (make_logged-KeepsOptions _) (λ _.
          KeepsOptions-bind _ _ (make_logged-KeepsOptions _) (λ _.
            KeepsOptions-bind _ _ (KeepsOptions-gets _) (λ dir.
              KeepsOptions-bind _ _ (KeepsOptions-log _ _ _) (λ _.
                KeepsOptions-bind _ _ (make_logged-KeepsOptions _) (λ _.
                  KeepsOptions-bind _ _ (KeepsOptions-log _ _ _)
                    (λ _. make_logged-KeepsOptions _)))))))
