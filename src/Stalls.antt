-- ===== src/Stalls.antt =====
-- The search of `AnalyzeStalls`, in `tools/unitrace/scripts/metrics/analyzeperfmetrics.py`, for the
-- instructions that a stalled one waits for: backwards from it through its block, then through the
-- blocks before, until its scoreboard tokens are all found. Positions are places in the list of
-- the assembly's rows, and a range of rows is given by its start and the place behind its end.
pub mod Tokens
pub mod Search
pub mod Report
pub mod Compose
mod Tests
