-- ===== src/Lib.antt =====
-- A command that lists the content of image indexes: the operators of a catalog, with their
-- channels and bundles, or the components of a release.
--
-- The program and its parts. `cmd/list/main.go` starts the command of `pkg/cli/executor.go`, which
-- validates its arguments, completes the options, makes the directories and calls the collector of
-- `pkg/index/list-images.go`. The collector looks whether the image is there already. If not, it has
-- it copied by `pkg/mirror`, follows the digests of its documents with `pkg/manifest`, and has its
-- layers extracted by it. Then it lists what was extracted. All log through `pkg/log`. The documents
-- have the types of `pkg/api/v1alpha3`; `pkg/api/v1alpha2` describes image sets, which the command
-- does not read.
--
-- Which file models which part:
-- - Cli: `Validate`, `Complete`, `Run` (Cli/Executor), the command's function and `main` (Cli/Main),
--   the options and flags of `NewCliCmd` (Cli/Flags), and the command that it makes (Cli/Command).
--   Cli/Prepared and Cli/Run concern the four directories that `Run` makes, where they can be made
--   and where not. Cli/Request, Cli/Served and Cli/Fresh follow a request from the arguments to the exit status, Cli/Lost one
--   for a release. Cli/Kept and Cli/Confined state where a run can write, Cli/Repeated describes
--   runs that follow one another on the same disk, as a relation, Cli/Fetched those behind a run
--   that listed an image, and Cli/Same two runs that collect the same.
-- - Collector: the constants and paths (Collector/Paths), the branch that fetches an image
--   (Collector/Fetch) and `Collect` (Collector/Collect). Collector/Follow and Collector/Layouts
--   describe which layers of a copied image are extracted, the latter in the words of the OCI image
--   layout. Collector/Trust states what is relied on of a copy, Collector/Safe and
--   Collector/Service concern panics. Collector/Listing describes what the listings log,
--   Collector/Extracted what is listed of a fresh operator image, Collector/Release what becomes of a release that is fetched,
--   Collector/Label what becomes of an operator image whose label names another directory,
--   Collector/Keeps what `Collect` leaves of the disk, and Collector/Policies compares what two
--   mirrors do.
-- - Manifest: `pkg/manifest/manifest.go`, with the JSON readers (Manifest/Documents), `untar`
--   (Manifest/Untar), `ExtractLayersOCI` (Manifest/Layers), `ListCatalogs` and
--   `readOperatorCatalog` (Manifest/Catalogs), and `New` (Manifest/Service). The files of an archive
--   are described in Manifest/Untar/Contents, those of an image in Manifest/Layers/Archives.
-- - Mirror: `copy` and `Run` of `pkg/mirror/mirror.go`, `ReexecIfNecessaryForImages` of
--   `pkg/mirror/unshare_linux.go` (Mirror/Copy). Options: `pkg/mirror/options.go`,
--   with the flags that write the options (Options/Flags).
-- - Log and World: `pkg/log/logger.go` and the state. World/Unread, and the modules Unread of the
--   other parts, compare runs whose options differ where nothing reads them. Schema:
--   `pkg/api/v1alpha3/types.go`.
-- - V1alpha2: `pkg/api/v1alpha2`.
-- - Strings, Fmt, Exec and Os: what is used of Go's library and language.
--
-- How the code is modelled. A method is an action `Exec (World O) A`: a function from the state to
-- an outcome and the state after it. The outcome is a value, an error as its text, or a panic; what
-- was written before an error or a panic stays written. The state holds the file system, the
-- options, the level of the logger, the calls made of it in order, and the lines printed. A text is
-- a list of bytes. An index out of range and a nil pointer are panics; a pointer that may be nil is
-- an `Option`. All loops run over lists. `Sprintf` is the part of it that is
-- used, with arguments that are texts already.
--
-- What is a parameter. Os: the file system (`os`, `io`); where files are written and read back, what
-- is relied on is IsFileSystem (Os/Files). Formats: `encoding/json` at the types of
-- the documents, `compress/gzip`, and `archive/tar` as the list of the results of `Next`. Images:
-- the libraries of containers/image and containers/common, with the retry and the logger of
-- deprecated flags; what is relied on is IsSafeImages (Mirror/Safe), and of the copy of one run
-- CopiesLayout (Collector/Trust). Cobra: what the command line parser makes of the command and
-- the arguments (Parsed); what is relied on is IsCobra. Values: how it
-- reads the text of a flag. References, Json, Gob and Meta: what image set configurations use of
-- other projects.
--
-- What is not modelled. How the command line parser takes the arguments apart, and its help: its
-- flags are a name and a write into the options, set in any order and any number of times. The
-- writer of the copy's report, file modes, and the closing of files. The contexts carry the timeout
-- only, and cancelling releases nothing that the program sees. The code that is commented out. The
-- vendored libraries. `MarshalJSON` of an index calls itself through the JSON library: its fuel is
-- the depth of the calls, and it is the only definition with fuel.
pub mod Prelude
pub mod Strings
pub mod Fmt
pub mod Exec
pub mod Os
pub mod Schema
pub mod Options
pub mod World
pub mod Log
pub mod Manifest
pub mod Mirror
pub mod Collector
pub mod Cli
pub mod V1alpha2
pub mod Tests
