-- ===== src/World.antt =====
-- The state that the program reads and writes: the file system, the options, the calls made of
-- the logger, and the lines printed on the standard output.
pub mod Safe
pub mod Options
pub mod Unread
use golang_imageindex_list.Prelude.{Bytes, List, [], ◌∷◌, ◌++◌}
use golang_imageindex_list.Exec.{Result, outcome, Exec, modify}
use golang_imageindex_list.Os.{Os}
use golang_imageindex_list.Options.{CopyOptions}

pub data Method : Type 0 where
  error info debug trace warn : Method

-- A call of a method of `simple.Logger`: the level that the logger had, and the message.
pub record LogLine : Type 0 where
  pub method : Method
  pub level : Bytes
  pub message : Bytes

pub record World (O : Os) : Type 0 where
  pub os : O.State
  pub opts : CopyOptions
  -- `PluggableLogger.Log.Level`
  pub level : Bytes
  pub log : List LogLine
  pub stdout : List Bytes

module _ {A : Type 0} {O : Os} where
  -- A call that may change the file system.
  unfoldable pub os_call : (O.State → Result A × O.State) → Exec (World O) A
  os_call f w = let (r, s) = f w.os in (outcome r, record w { os = s })

  -- A call that only reads it.
  unfoldable pub os_read : (O.State → Result A) → Exec (World O) A
  os_read f w = (outcome (f w.os), w)

-- `fmt.Print` of a line
abbrev pub print : {O : Os} → Bytes → Exec (World O) Unit
print line = modify (λ w. record w { stdout = w.stdout ++ line ∷ [] })
