-- ===== src/Tests/Queries.antt =====
-- The theorems on sockets, packages and cache sizes of src/archTopology.c, each at an input.
use numafac.Libc.{
  codes, same_text, starts_with, scan_int, scan_signed, scan_unsigned, with_sign, digits_value,
  is_digit, is_space, skip_spaces, decimal, decimal_fuel, sprintf_i, strcpy, strcat, atoi, strtok,
  skip_while, token_at, token_end, fgets, line,
}
use numafac.Os.{Os, read_into, read_int}
use numafac.Topology.Counts.{na_get_numcaches, na_get_socket_cpu, package_command}
use numafac.Topology.Counts.Packages.{PrintsPackage}
use numafac.Topology.Memory.{size_command}
use numafac.Topology.Caches.{
  size_of, rounds_from_2, shared_command, shared_level, na_get_shared_cache_level, cache_cores_loop,
  na_get_cache_cores,
}
use numafac.Topology.Cpus.{
  is_blank, read_ids, shift, sort_ids, list_command, parse_ids, listed_ids, ids_of,
  na_get_cpusidnode, na_get_cpusidsocket,
}
use numafac.Topology.Cpus.Sockets.{na_get_cpusidsocket-no_return}
use numafac.Topology.Fits.{commands_fit}
use numafac.Tests.Machine.{fours}
use numafac.Prelude.{
  ℕ, ◌<◌, refl, ◌≢◌, none, some, [], arith, if◌then◌else◌, pos, ◌-ℤ◌, eqb_ℤ, ok, load, store,
  value_or, Returns-value_or,
}

-- Opens what a run of the functions on these machines calls.
program : Unit {0}
unfolding same_text starts_with scan_int scan_signed scan_unsigned with_sign digits_value is_digit
    is_space skip_spaces decimal decimal_fuel sprintf_i strcpy strcat atoi strtok skip_while
    token_at token_end fgets line read_into read_int na_get_numcaches size_of rounds_from_2
    shared_command shared_level na_get_shared_cache_level cache_cores_loop na_get_cache_cores
    is_blank read_ids shift sort_ids list_command parse_ids listed_ids ids_of na_get_cpusidnode
    na_get_socket_cpu package_command size_command ◌-ℤ◌ eqb_ℤ load store
program = tt

-- A machine with two CPUs, 0 and 1, to the node, both of package 1, and three cache levels.
abbrev two_cpus : Os
unfolding starts_with
two_cpus = record {
  popen = λ c. some (
      if starts_with (codes "NODE_CPUIDS") c
      then codes "1 0\n"
      else if starts_with (codes "ls -d /sys/devices/system/node/node0/cpu") c
      then codes "2\n"
      else if starts_with (codes "ls -d /sys/devices/system/cpu/cpu0/cache") c
      then codes "3\n"
      else codes "1\n");
  fopen = λ p. none;
  opendir = λ p. none;
}

na_get_cpusidsocket-no_return_example : na_get_cpusidsocket fours (pos 0) ≢ ok []
unfolding program
na_get_cpusidsocket-no_return_example = na_get_cpusidsocket-no_return fours (pos 0) 2 [] refl

abbrev zero_cpus : Os
zero_cpus = record { popen = λ c. some (codes "0\n"); fopen = λ p. none; opendir = λ p. none }

prints_zero : (cpu : ℕ) → cpu < 16 → PrintsPackage zero_cpus (λ i. 0) cpu
unfolding read_into scan_int scan_signed scan_unsigned with_sign digits_value is_digit is_space
    skip_spaces
prints_zero cpu h = record {
  command = value_or [] (package_command 512 (pos cpu) (codes "/topology/physical_package_id\n"));
  built = Returns-value_or _ [] _ (commands_fit (pos cpu) 0 (omega arith) (omega arith)).1;
  read = λ x. refl;
}
