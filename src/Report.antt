-- ===== src/Report.antt =====
-- benchcli-go/report: the reports of the three benchmarks and the tables made of them.
pub mod Columns
pub mod Outside
pub mod Percent
pub mod Cells
pub mod Ranking
pub mod Table
pub mod Markdown
pub mod Plain
pub mod Summary
pub mod Ratios
pub mod Made
pub mod Files
