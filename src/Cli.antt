-- ===== src/Cli.antt =====
-- pkg/cli/executor.go and cmd/list/main.go.
pub mod Executor
pub mod Main
pub mod Flags
pub mod Command
pub mod Ends
pub mod Validation
pub mod Policies
pub mod Prepared
pub mod Status
pub mod Served
pub mod Request
pub mod Run
pub mod Safe
pub mod Fresh
pub mod Fetched
pub mod Lost
pub mod Unchanged
pub mod Unread
pub mod Kept
pub mod Same
pub mod Confined
pub mod Repeated
