-- ===== src/Cli/Unread.antt =====
-- The options that decide nothing of a run of the program.
use golang_imageindex_list.Prelude.{Bytes, codes, List, [], ◌∷◌, ◌≡◌, refl, not, bytes_eq}
use golang_imageindex_list.Exec.{Result, ok, err, Exec, try, ◌>>=◌}
use golang_imageindex_list.Strings.{contains}
use golang_imageindex_list.Os.{Os}
use golang_imageindex_list.World.{World}
use golang_imageindex_list.Options.{CopyOptions}
use golang_imageindex_list.World.Unread.{
  with_unread, as_with, IsBlind, IsBlind-pure, IsBlind-fail, IsBlind-deref, IsBlind-os_call,
  IsBlind-try, IsBlind-if, IsBlind-log, IsBlind-bind, IsBlind-options,
}
use golang_imageindex_list.Manifest.Formats.{Formats}
use golang_imageindex_list.Mirror.Images.{Images}
use golang_imageindex_list.Mirror.Unread.{AreBlind}
use golang_imageindex_list.Manifest.Service as ManifestService
use golang_imageindex_list.Mirror.Copy as MirrorCopy
use golang_imageindex_list.Collector.Collect.{collect}
use golang_imageindex_list.Collector.Unread.{collect-IsBlind}
use golang_imageindex_list.Cli.Executor.{
  check_type, validate, complete, or_log, make_logged, prepare, run,
}
use golang_imageindex_list.Cli.Main.{
  after_run, after_validate, run_command, Parsed, refused, answered, invoked, main,
}
use golang_imageindex_list.Cli.Unchanged.{with_collect}

module _ {O : Os} {other : CopyOptions} where
  check_type-IsBlind :
      (image_type reference : Bytes) → IsBlind O other (check_type image_type reference)
  unfolding check_type
  check_type-IsBlind image_type reference =
      IsBlind-if (bytes_eq image_type (codes "operator"))
        (IsBlind-if (not (contains reference (codes "operator"))) (IsBlind-fail _)
          (IsBlind-pure tt))
        (IsBlind-if (bytes_eq image_type (codes "release"))
          (IsBlind-if (not (contains reference (codes "release"))) (IsBlind-fail _)
            (IsBlind-pure tt))
          (IsBlind-fail _))

  validate-IsBlind : (args : List Bytes) → IsBlind O other (validate args)
  unfolding validate
  validate-IsBlind args =
      IsBlind-options (λ o. o.global.reference) (λ opts. refl)
        (λ reference. IsBlind-if (bytes_eq reference []) (IsBlind-fail _) (
          IsBlind-bind (IsBlind-deref _)
            (λ t. IsBlind-bind (check_type-IsBlind t reference) (λ _. IsBlind-log _ _ _))))

  or_log-IsBlind : (r : Result (Unit {0})) → IsBlind O other (or_log r)
  unfolding or_log
  or_log-IsBlind (ok _) = IsBlind-pure tt
  or_log-IsBlind (err e) = IsBlind-bind (IsBlind-log _ _ _) (λ _. IsBlind-fail e)

  after_run-IsBlind : (r : Result (Unit {0})) → IsBlind O other (after_run {O = O} r)
  unfolding after_run
  after_run-IsBlind (ok _) = IsBlind-pure 0
  after_run-IsBlind (err e) = IsBlind-bind (IsBlind-log _ _ _) (λ _. IsBlind-pure 1)

  make_logged-IsBlind :
      (c : Exec (World O) (Unit {0})) (dir : Bytes)
      → IsBlind O other (make_logged (with_collect c) dir)
  unfolding make_logged
  make_logged-IsBlind c dir = IsBlind-bind (IsBlind-try (IsBlind-os_call _)) or_log-IsBlind

  run-IsBlind :
      {c : Exec (World O) (Unit {0})} → IsBlind O other c → IsBlind O other (run (with_collect c))
  unfolding run prepare
  run-IsBlind {c} b =
      IsBlind-bind
        (IsBlind-bind (IsBlind-try (IsBlind-os_call _)) (λ _.
          IsBlind-bind (make_logged-IsBlind c _) (λ _. IsBlind-bind (make_logged-IsBlind c _) (λ _.
            IsBlind-options (λ o. o.global.dir) (λ opts. refl)
              (λ dir. IsBlind-bind (IsBlind-log _ _ _) (λ _.
                IsBlind-bind (make_logged-IsBlind c _)
                  (λ _. IsBlind-bind (IsBlind-log _ _ _) (λ _. make_logged-IsBlind c _))))))))
        (λ _. b)

-- What the parser gives with these options of `other`.
abbrev pub parsed_as : CopyOptions → Parsed → Parsed
parsed_as other (refused e) = refused e
parsed_as other answered = answered
parsed_as other (invoked opts args) = invoked (with_unread other opts) args

module _ {O : Os} {other : CopyOptions} (formats : Formats) (images : Images O)
    (k : AreBlind other images) where
  after_complete-IsBlind : IsBlind O other (
      try
        (run (with_collect (collect (ManifestService.service formats) (MirrorCopy.service images))))
      >>= after_run)
  after_complete-IsBlind =
      IsBlind-bind (IsBlind-try (run-IsBlind (collect-IsBlind formats k))) after_run-IsBlind

  after_validate-IsBlind :
      (args : List Bytes) (r : Result (Unit {0}))
      → IsBlind O other (after_validate formats images args r)
  unfolding after_validate complete
  after_validate-IsBlind args (err e) = IsBlind-pure 1
  after_validate-IsBlind [] (ok _) = record { at = λ w. unfold ◌>>=◌ in refl }
  after_validate-IsBlind (image_type ∷ args) (ok _) = record {
    at = λ w.
        unfold ◌>>=◌ in after_complete-IsBlind.at (complete formats images (image_type ∷ args) w).1;
  }

  run_command-IsBlind : (args : List Bytes) → IsBlind O other (run_command formats images args)
  unfolding run_command
  run_command-IsBlind args =
      IsBlind-bind (IsBlind-try (validate-IsBlind args)) (after_validate-IsBlind args)

  -- Most options decide nothing: the credentials, the authentication file and the flag for TLS of the
  -- source and of the destination, the settings of a compression and of an encryption, the tags, the
  -- digest file, the architectures, the identity and the passphrase of a signature, the mode and the
  -- destination, the configuration, the origin, silence and force. With others, and at another level
  -- of the logger, the program ends with the same status, leaves the same disk, prints the same lines
  -- and makes the same calls of the logger in the same order, with only the level that is recorded
  -- with them changed. It is required that the image libraries see of the options what they are
  -- given, and do not see the logger.
  pub unread_options :
      (parsed : Parsed) (w : World O)
      → main formats images (parsed_as other parsed) (as_with other w)
        ≡ ((main formats images parsed w).0, as_with other (main formats images parsed w).1)
  unfolding main
  unread_options (refused e) w =
      (IsBlind-bind {O = O} {other = other} (IsBlind-log _ _ _) (λ _. IsBlind-pure 1)).at w
  unread_options answered w = refl
  unread_options (invoked opts args) w = (run_command-IsBlind args).at (record w { opts = opts })
