-- ===== src/Lib.antt =====
-- Models of the Python scripts of unitrace, the tracing and profiling tool, that work on what it
-- records, or that its build runs: the analysis of hardware metrics and stalls, the summaries and
-- rooflines of kernels, the merging of traces, the trace viewer, and the generators of headers.
--
-- Text is a list of code points, a file's rows are a list of texts, and numbers are natural numbers.
-- What the scripts leave to others is a parameter: the reader of tables gives rows, JSON's reader and
-- writer are a record of functions, the demangler's program prints a text, and the plotting library is handed
-- charts, which are values here.
--
-- The parts, with the paths from the repository's root:
--   Base, Text       shared names; Boolean tests, lists by native numbers, and Python's methods of `str`
--   Sections         tools/unitrace/scripts/metrics/analyzeperfmetrics.py, `main` and the request
--                    server: where the metrics of a device lie in the file
--   Asm              the same file, `AnalyzeStalls`, and addrasm.py beside it: the assembly file of a
--                    kernel, and the addresses of its instructions; as Asm.Demangler, `Demangler`
--   Cfg              `BB`, `ConstructCFG`, `FindBB`: the basic blocks of a kernel's assembly
--   Stalls           `AnalyzeStalls`: the tokens that an instruction waits for, and the search for the
--                    instructions that set them, through the blocks before; as Stalls.Report and
--                    Stalls.Compose, the text of the report and the function as a whole
--   Report           `WriteOutStallReport`: the pages of a report
--   Charts.Paging, Charts.Stalls
--                    `AnalyzeStallMetrics`: the charts and reports of all kernels, or of one
--   Charts.Perf      `PlotKernelInstancePerfMetrics`, `AnalyzePerfMetrics`: the charts of instances
--   Command          `main`: the checks of the arguments, and which part goes on
--   Listing          `List`: the columns, how many instances of each kernel there are, and as
--                    Listing.Whole the lines that are printed
--   Summary          tools/unitrace/scripts/summary/summary.py: the search in the tree of tags
--   Summary.Tags, Summary.Config
--                    tools/unitrace/scripts/summary/categorize.py: the tree that is built of the tags
--                    of an INI file
--   Summary.Csv, Summary.Timings, Summary.Output
--                    summary.py again: the tables of an archive's files, and the output by category
--   Roofline         tools/unitrace/scripts/roofline: roofline_libs.py, and roofline.py as Roofline.Run
--   Loader           tools/unitrace/scripts/gen_l0_loader.py: the names in the headers of Level Zero,
--                    and the code that declares and loads them
--   Headers          tools/unitrace/scripts/get_itt.py: the headers and the library of ITT
--   Requests         `do_GET`, `HttpAnalyzeStallMetrics`, `HttpAnalyzePerfMetrics`: the answers to the
--                    trace viewer, from the sections that Sections.Server finds
--   Trace            tools/unitrace/scripts/tracemerge/mergetrace.py and, as Trace.View,
--                    tools/unitrace/scripts/uniview.py: reading, repairing and merging traces
--
-- `main` finds a section, whose rows the table reader gives to Charts; Charts.Stalls asks Report
-- for the pages of each kernel's report; Stalls.Compose makes the report from Asm, Cfg and Stalls,
-- and Charts.Stalls takes a function that gives it. Requests answers by the same functions of
-- Charts. Summary.Output finds the categories of names in the trees that Summary.Config makes,
-- which pass through a JSON file.
--
-- Fuel: `put_line` takes the line's length, as each round drops 160 characters of it; `hex_digits`
-- one more than the number; `compare_from` one more than the number of tokens, of which each round
-- passes one; `build_search_tree` the number of tags, as each call leaves out one at least; the
-- reading of a summary file one more than its lines, of which each round takes one at least, and
-- `categorized` one more than the name's characters. `search_tree`, whose rounds are as many as
-- the keys that it passes, and the search through the blocks, whose loop need not end, take any
-- fuel.
--
-- Not modelled: parsing of the command line, the starting of servers and browsers, the arithmetic
-- on floats of the roofline's summary and points, aggregators of timings that give floats, the
-- scripts of the build that write fixed files, the test drivers, and the C and C++ code. White
-- space and digits are those of ASCII. For an assembly without rows the tail of the only block is
-- 0 here and -1 in the source. A table without the column `GpuTime[ns]` is not considered where
-- throughputs are charted, nor is a blank row in a table of stalls. The input traces can be opened
-- for reading and for appending, and their data are JSON objects or arrays. A tree of tags with a
-- key length of 0, where the search may go on for ever, gives no output.
pub mod Base
pub mod Text
pub mod Sections
pub mod Report
pub mod Trace
pub mod Cfg
pub mod Asm
pub mod Stalls
pub mod Charts
pub mod Requests
pub mod Roofline
pub mod Command
pub mod Headers
pub mod Listing
pub mod Loader
pub mod Summary
