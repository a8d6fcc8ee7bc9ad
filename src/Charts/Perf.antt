-- ===== src/Charts/Perf.antt =====
-- `PlotKernelInstancePerfMetrics` and `AnalyzePerfMetrics`, lines 826 to 1156: the charts of the
-- instances of kernels. A kernel's samples stand together in the table; a row without a kernel's
-- name ends an instance.
pub mod Instance
pub mod All
