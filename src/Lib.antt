-- ===== src/Lib.antt =====
-- A model of the linux process analyzer, a C program that takes snapshots of the processes in /proc
-- at fixed intervals, logs them, rotates and compresses the logs, and prints metrics at its end.
--
-- The parts and their files. Names of functions, fields and constants are those of the source, with
-- camel case and prefixes of buffers spelled in lower case.
--   * Prelude: the names of the libraries, lists measured by native numbers, signed integers, C
--     strings as lists of bytes, strtol, strtoull and printf's decimal numbers, strptime and timegm.
--   * Args: code/args_parser/args_parser.c. Args/Numbers has the parsers of single arguments,
--     Args/Whitelist the filter lists, Args/Options the loop over the options (ap_parse_args) with
--     the checks behind it. The input is the list of options that getopt_long returns.
--   * Config: code/config/config.c. The record and config_set_option are in Config, parse_config_file
--     in Config/File, mkdir_p, check_file_access and ensure_output_dir in Config/Directory,
--     validate_config and config_init in Config/Init, the banner in Config/Banner.
--   * Stats: code/process_stats/process_stats.c. Stats/Sample has what one sample does to a record,
--     Stats/Update the table and process_stats_update, Stats/Order the comparators of qsort,
--     Stats/Metrics the registry and the JSON texts, Stats/Report process_stats_print_metrics.
--   * Snapshot: code/process_snapshot/process_snapshot.c. Snapshot/Files is the output directory,
--     Snapshot/Rotate has rotate_logs, rotate_and_reopen and handle_rotations, Snapshot/Filter the
--     tests of directory names and of the filters that Args builds, Snapshot/Proc the reading of
--     /proc/<pid> with the lines that the kernel prints there, Snapshot/Collect the loop of
--     collect_snapshot, Snapshot/Run the whole of it with its rotation, one snapshot after the other,
--     Snapshot/Lifecycle the lock, the opening and closing of the files, and the deletion of old
--     files, Snapshot/Clock the page size and the text of the clock, which Stats/Metrics reads back.
--   * Compression: code/compression/compression_worker.c. The work on one file is in Compression,
--     Compression/Job and Compression/Kept, the queue shared by the two threads and the shutdown in
--     Compression/Queue; there a worker in pthread_cond_wait is blocked until it is signalled or wakes
--     without a signal, and the linked list of jobs is a list. Compression/Archive and Compression/Pending put it together with the
--     rotation.
--   * Analyzer: code/process_analyzer.c, with the timer loop and the order of the calls of main.
--   * Tests: concrete instances of the parameters, and runs on concrete inputs.
--
-- How the parts meet: Args builds the filters that Snapshot tests; Snapshot rotates the files and
-- hands their names to the queue of Compression; the configuration decides on rotation, compression
-- and output; Stats is fed one input per process and snapshot and reports once at the end.
--
-- What is outside: double arithmetic (Stats.Float), the hash table (Stats.ProcessTable with the
-- laws of uthash in IsTable), qsort (IsQsort), the calls of the file system in Config/Directory
-- (FileSystem, Makes), the faults of rename, unlink, malloc and
-- fopen, and zlib (Compression.Gzip) are parameters.
--
-- Bounds: integers of 32 and 64 bits keep their wrap-around, written out as % 2 ^ 32 and % 2 ^ 64;
-- signed overflow of memory sizes and their sums is taken as exact. PIDs are natural numbers. Loops
-- that walk a text have its length as fuel, and each round takes at least one byte: parse_lines
-- and parse_segments never run out. A decimal number of n is written in at most n + 1 rounds.
--
-- Not modelled: the clocks and readdir, whose answers are inputs; setvbuf and fflush; the usage and
-- error texts; the buffering between a FILE and its file, so that a write is seen at once; uthash, a
-- copy of another project; the tests, the dashboard and the build files.
pub mod Prelude
pub mod Args
pub mod Config
pub mod Stats
pub mod Snapshot
pub mod Compression
pub mod Analyzer
pub mod Tests
