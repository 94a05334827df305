-- ===== src/Os.antt =====
-- The calls of Go's packages `os` and `io` that the program makes, over an unknown file system.
pub mod Files
use golang_imageindex_list.Prelude.{Bytes, List}
use golang_imageindex_list.Exec.{Result}

-- What `os.Stat` reports. `errors.Is(err, os.ErrNotExist)` holds of `missing` alone.
pub data Stat : Type 0 where
  present missing : Stat
  unreadable : Bytes → Stat

pub record Os : Type 1 where
  pub State : Type 0
  pub stat : State → Bytes → Stat
  pub read_file : State → Bytes → Result {0} Bytes
  -- `os.Open`, with the bytes that a reader of the file gets.
  pub open_file : State → Bytes → Result {0} Bytes
  -- The sorted names of `os.ReadDir`.
  pub read_dir : State → Bytes → Result {0} (List Bytes)
  pub mkdir_all : State → Bytes → Result (Unit {0}) × State
  -- `os.Create` makes or truncates a file.
  pub create : State → Bytes → Result (Unit {0}) × State
  -- `io.Copy` appends the bytes to the file that was created at the path.
  pub copy : State → Bytes → Bytes → Result (Unit {0}) × State
  pub remove_all : State → Bytes → Result (Unit {0}) × State
