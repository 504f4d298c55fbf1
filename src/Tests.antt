-- ===== src/Tests.antt =====
-- Runs at concrete inputs, with concrete instances of the parameters: an integer arithmetic for
-- double, a list for the hash table, an insertion sort for qsort and a list of directories.
mod Archive
mod ProcFiles
mod Models
mod CommandLine
mod Configuration
mod Statistics
mod Metrics
mod Output
mod Compressor
mod Program
mod Lifecycle
mod Collection
mod Snapshots
