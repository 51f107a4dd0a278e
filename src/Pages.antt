-- ===== src/Pages.antt =====
-- The pages and their parts: what each of them keeps, does and shows.
pub mod Paging
pub mod Citations
pub mod Reviews
pub mod Breadcrumbs
pub mod Sidebar
pub mod AuditRows
pub mod Format
pub mod Sizes
pub mod Routes
pub mod Screens
pub mod System
pub mod Analysis
pub mod Download
pub mod Detail
pub mod Documents
pub mod Research
pub mod Dashboard
pub mod Cases
pub mod Shell
pub mod AuditView
pub mod SystemView
pub mod Processing
