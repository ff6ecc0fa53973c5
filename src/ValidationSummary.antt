-- ===== src/ValidationSummary.antt =====
-- indexer/validation_summary.go: for each identity of a finished validation, what it earned and what
-- it missed, and why.
mod Parts
mod Reports
mod Init
mod Total
pub mod Reasons
pub mod Amounts
mod Tests
unfoldable pub use Parts.*
unfoldable pub use Reports.*
unfoldable pub use Init.*
unfoldable pub use Total.*
