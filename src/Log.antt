-- ===== src/Log.antt =====
-- pkg/log/logger.go: `PluggableLogger`, in front of the third-party `simple.Logger`, whose calls
-- are recorded.
pub mod Keeps
pub mod Reports
use golang_imageindex_list.Prelude.{Bytes, List, [], ◌∷◌, ◌++◌}
use golang_imageindex_list.Exec.{Exec, modify}
use golang_imageindex_list.Fmt.{sprintf}
use golang_imageindex_list.Os.{Os}
use golang_imageindex_list.World.{World, Method, error, info, debug, trace, warn}

-- The call of the logger behind each method.
abbrev pub say : {O : Os} → Method → Bytes → List Bytes → World O → World O
say method msg val w = record w {
  log = w.log ++ record { method = method; level = w.level; message = sprintf msg val } ∷ [];
}

module _ {O : Os} where
  -- `Error`
  abbrev pub log_error : Bytes → List Bytes → Exec (World O) Unit
  log_error msg val = modify (say error msg val)

  -- `Info`
  abbrev pub log_info : Bytes → List Bytes → Exec (World O) Unit
  log_info msg val = modify (say info msg val)

  -- `Debug`
  abbrev pub log_debug : Bytes → List Bytes → Exec (World O) Unit
  log_debug msg val = modify (say debug msg val)

  -- `Trace`
  abbrev pub log_trace : Bytes → List Bytes → Exec (World O) Unit
  log_trace msg val = modify (say trace msg val)

  -- `Warn`
  abbrev pub log_warn : Bytes → List Bytes → Exec (World O) Unit
  log_warn msg val = modify (say warn msg val)

  -- `Level`
  abbrev pub set_level : Bytes → Exec (World O) Unit
  set_level level = modify (λ w. record w { level = level })
