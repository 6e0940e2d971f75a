-- ===== src/Tests/Machine.antt =====
-- A machine for the tests: two CPUs to a node, no shared cache, and the files of the benchmarks.
use numafac.Os.{Floats, Numerals}
use numafac.Libc.{sprintf_i, scan_int, scan_signed, with_sign}
use numafac.Topology.Matrix.Entries.{Scans}
use numafac.Topology.Neighbors.Rows.{ScansInts}
use numafac.Topology.Affinity.{Kernel, Mask}
use numafac.Topology.Affinity.Pinning.{Pins}
use numafac.Libc.{scan_unsigned, digits_value, is_digit, is_space, skip_spaces}
use numafac.Libc.{TextBytes, codes, starts_with}
use numafac.Os.{Os}
use numafac.Prelude.{
  ℕ, zero, suc, ◌-◌, ◌*◌, ◌/◌, refl, sym, inl, inr, ◌&&◌, none, some, List, [], ◌∷◌, ltb, ◌==◌,
  if◌then◌else◌, Bool-cases, length, get_or, replicate, ℤ, pos,
}

-- What the shell commands print.
abbrev pub answer : TextBytes → TextBytes
unfolding starts_with
answer c =
    if starts_with (codes "NODE_CPUIDS") c
    then codes "9 3 11\n"
    else if starts_with (codes "ls -d /sys/devices/system/node/node0/cpu") c
    then codes "3\n"
    else codes "1\n"

-- The directories of the nodes: node 1 lists CPU 5, and every node has a file of its own.
abbrev pub listing : ℕ → List TextBytes
listing i = if i == 1 then codes "meminfo" ∷ codes "cpu5" ∷ [] else codes "meminfo" ∷ []

-- The digit behind "/sys/devices/system/node/node".
abbrev pub node_digit : TextBytes → ℕ
node_digit p = get_or p 29 48 - 48

abbrev pub machine : Os
machine = record {
  popen = λ c. some (answer c);
  fopen = λ p. none;
  opendir = λ p. some (listing (node_digit p));
}

-- A machine on which every command prints 4: three cache levels, the first of them shared.
abbrev pub fours : Os
fours = record { popen = λ c. some (codes "4\n"); fopen = λ p. none; opendir = λ p. none }

-- What stands in shared_cpu_list of CPU 0, by the level.
abbrev pub sharers : ℕ → TextBytes
sharers i = if i == 3 then codes "0,4\n" else codes "0\n"

-- A machine with three cache levels, and these sharers. The level is the digit behind ".../index".
abbrev pub stacked : Os
stacked = record {
  popen = λ c. some (
      if ltb (length c) 60
      then codes "4\n"
      else if get_or c 44 48 == 51
      then codes "2\n"
      else codes "1\n");
  fopen = λ p. none;
  opendir = λ p. none;
}

-- " 7", so many times.
abbrev pub sevens : ℕ → TextBytes
sevens zero = []
sevens (suc n) = 32 ∷ 55 ∷ sevens n

-- A machine whose files hold 64 or, for the file with the longest name, 256 times the number 7.
abbrev pub filed : Os
filed = record {
  popen = λ c. none;
  fopen = λ p. some (sevens (if ltb 40 (length p) then 256 else 64));
  opendir = λ p. none;
}

-- Numbers without a fraction, which stand for floating point numbers in the tests.
abbrev pub whole : Floats
whole = record { F = ℤ; thousandths = λ n. pos (n / 1000); scan = scan_int; print = sprintf_i }

-- The same with a second part, which stand for doubles.
abbrev pub fine : Floats
fine = record {
  F = ℤ × ℕ;
  thousandths = λ n. (pos (n / 1000), n - n / 1000 * 1000);
  scan = λ s. (elim ((scan_int s).0) [ none ↦ none | some n ↦ some (n, 0) ], (scan_int s).1);
  print = λ x. sprintf_i x.0;
}

abbrev pub numerals : Numerals whole fine
numerals = record {
  Value = ℤ;
  numeral = scan_int;
  to_single = λ n. n;
  to_double = λ n. (n, 0);
  scan_single = λ s v rest e. e;
  scan_double = λ s v rest e. rw e refl;
}

pub sevens-Scans : (n : ℕ) → Scans whole (sevens n) (replicate n (pos 7))
unfolding scan_int scan_signed scan_unsigned with_sign digits_value is_digit is_space skip_spaces
sevens-Scans zero = tt
sevens-Scans (suc zero) = ([], refl, tt)
sevens-Scans (suc (suc n)) = (sevens (suc n), refl, sevens-Scans (suc n))

pub sevens-ScansInts : (n : ℕ) → ScansInts (sevens n) (replicate n (pos 7))
sevens-ScansInts = sevens-Scans

-- A kernel with CPU 3 as the only one on line, where a process has the mask that was set last.
abbrev pub one_cpu : Kernel
one_cpu = record {
  State = Mask;
  sched_setaffinity = λ s id m. if m 3 then some (λ i. m i && i == 3) else none;
  sched_getaffinity = λ s id. some s;
}

pub one_cpu-Pins : Pins one_cpu (λ i. i == 3)
one_cpu-Pins = record {
  set_get =
      λ s s' id m e. elim (Bool-cases (m 3)) [ inl h ↦ sym (rw h at e) | inr h ↦ cc (rw h at e) ];
  some_cpu = λ s s' id m e. elim (Bool-cases (m 3)) [ inl h ↦ (3, rw h) | inr h ↦ cc (rw h at e) ];
}
