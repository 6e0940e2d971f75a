-- ===== src/Lib.antt =====
-- numafac: the topology of a NUMA machine and the cost of its memory, as the C code of the
-- repository finds them. The scripts calc_numafactor.sh and topology.sh run the benchmarks and
-- write the files and the header that this code reads.
--
-- The program's parts, from the repository's root, and the files that model them:
-- - include/archTopo.h, the constants of the machine at hand: Config. The functions that only
--   return one of them are in Topology/Counts and Topology/Memory.
-- - src/archTopology.c, the library that answers questions about the machine: Topology. Counts
--   (numbers of nodes, CPUs, sockets, cache levels), Memory (amounts of memory and cache sizes),
--   Nodes (which node a CPU is of, and the table HashCpuNode), Caches (shared cache levels and who
--   shares them), Cpus (the CPUs of a node and of a socket), Matrix (files of latencies, NUMA
--   factors and bandwidths), Neighbors (nearest nodes), Affinity (pinning a process), Directories
--   (the functions that print directories). A C function na_x is a definition of the same name, its
--   words in lower case; a loop is a definition of its own over its variables, named in its
--   comment.
-- - The part of the C library that this code calls, in Libc: strcpy and strcat into arrays of a
--   given size, sprintf of an integer, fscanf of an integer or a word, atoi, strtok, fgets, strcmp.
-- - latencies/compute-latencies.c, which writes the file of latencies between cores from that
--   between nodes and from measured cache latencies: Latencies. Its main is `main`, cut where the
--   caches are measured: `write_latencies` is the rest.
-- - topo/topo.c, which prints a distribution of threads: Topo, its main as `topo_main`.
-- - lmbench3/src/lat_mem_rd.c and lib_mem.c, of which the sizes that are measured, the rings of
--   pointers that are followed and the blocks of memory are in Lmbench (Sizes, Strides, Thrash,
--   Regions); lib_sched.c, the choice of a processor, in its Scheduling; bytes of lib_timing.c.
--   Addresses do not wrap around there, and a pointer has 8 bytes: a store at an address destroys
--   the pointers that it overlaps.
-- - lmbench3/src/getopt.c, in Lmbench/Getopt, and main of lat_mem_rd.c with the switch over its
--   options in Lmbench/Arguments, as `lat_mem_rd`; argv is the list of its words, ac its length. What it
--   measures by these is in Arguments/Measured.
-- - lmbench3/src/lib_stats.c, medians, means, minima and maxima, in Lmbench/Statistics, once for
--   all types of numbers.
-- - lmbench3/src/lib_timing.c, compute_enough, in Lmbench/Enough; a time is a function of the
--   number of the measurement and the work.
-- - lmbench3/src/lib_timing.c, permutation, in Lmbench/Permutation; what rand gives is a function
--   of the round.
-- - lmbench3/src/lib_timing.c, benchmp, which runs a benchmark in processes and keeps the times:
--   its results in Lmbench/Results; a child in Lmbench/Child, where run_child calls
--   benchmp_interval once for each Input, which is what that call finds of clocks, signals and
--   pipes; and the parent in Lmbench/Parent, where a Poll is one round of its loops over the pipe.
--   Comparisons and quotients of times in double arithmetic are the parameter Doubles. The calls of
--   the benchmark and of its initialize and cleanup functions change nothing else. Lmbench/System
--   has the parent and its children together, in any order: a Step is a round of a loop of
--   benchmp_parent, or a call of benchmp_interval by a child, on the bytes in the pipes. There a
--   select and the read behind it are one step, and so is a write; a report is as many bytes as a
--   result_t has, each marked with its results.
-- - What is not in the repository is a parameter, in Os and Topology/Affinity: the shell and the
--   file system, as functions from a command or a path to what is read from it; floating point
--   numbers, as types for float and for double with literals, scanf and printf; the two affinity calls of the kernel, as
--   functions on a state of it; hwloc and the timer of lmbench3, in Latencies; the functions of
--   topo.c that compute a distribution, in Topo.
--
-- How C is read. A text is the list of its bytes. A call comes to a Run: a value, exit, undefined
-- behaviour, or not enough fuel. Undefined behaviour that is modelled: a write past the end of a
-- char array, an access outside of an array of numbers, the use of NULL, and the use of memory that
-- nothing was written to. permutation and loads add a division by zero, getopt a
-- failed assertion, and lib_stats.c the overflow of a sum of ints. An
-- array from malloc is a list of cells that hold nothing at first. An int is an integer; numerals
-- beyond the range of int, which C leaves undefined in scanf, are read exactly. The conversions to
-- unsigned long are written out. The answers of the machine do not change while a function runs,
-- and malloc of a size that is not negative succeeds.
--
-- Bounds. Loops over a count recur on the rounds left, which the code knows. In Topology, only
-- na_get_cpusidnode takes fuel, for its recursion through na_get_socketsId_node: one unit is enough
-- where it returns. The loops of Lmbench take as fuel the limit that they count up to, since each
-- round adds at least 1, or the length of the text; the loop of `lat_mem_rd` over its options, the
-- number of characters in argv, since each round takes one of them or ends the program.
--
-- Not modelled: the shell scripts, stream, the rest of lmbench3, the text of error messages, the
-- memory of the library that is never freed, and of benchmp the time limits and, in Lmbench/System,
-- signals and errors.
pub mod Prelude
pub mod Libc
pub mod Config
pub mod Os
pub mod Topology
pub mod Latencies
pub mod Lmbench
pub mod Topo
mod Tests
