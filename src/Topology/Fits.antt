-- ===== src/Topology/Fits.antt =====
-- The shell commands and paths of src/archTopology.c fit the char arrays that they are built in.
use numafac.Libc.{TextBytes, codes, sprintf_i, length-sprintf_i}
use numafac.Libc.Fits.{strcpy-then, strcat-then, strcat-last}
use numafac.Topology.Counts.{package_command}
use numafac.Topology.Caches.{shared_command}
use numafac.Topology.Cpus.{list_command}
use numafac.Prelude.{ℕ, ◌+◌, ◌^◌, ◌≤◌, ◌<◌, arith, length, ℤ, pos, pos_part, neg_part, Returns}

-- The range of `int`.
abbrev pub IsInt : ℤ → Type 0
IsInt n = pos_part n + neg_part n ≤ 2 ^ 31

package_command-fits :
    (size : ℕ) (cpu : ℤ) (suffix : TextBytes)
    → IsInt cpu
    → length suffix ≤ 31
    → 73 < size
    → Returns (package_command size cpu suffix) (λ c. length c < size)
unfolding package_command
package_command-fits size cpu suffix h short fits =
    strcpy-then size (codes "cat /sys/devices/system/cpu/cpu") 31 _ (omega arith) (omega arith)
      (λ b q.
        strcat-then size b (sprintf_i cpu) 31 11 _ q (length-sprintf_i cpu h) (omega arith)
          (λ c r. strcat-last size c suffix (omega arith)))

shared_command-fits : (i : ℕ) → i ≤ 2 ^ 31 → Returns (shared_command i) (λ c. length c < 512)
unfolding shared_command
shared_command-fits i h =
    strcpy-then 512 (codes "cat /sys/devices/system/cpu/cpu0/cache/index") 50 _ (omega arith)
      (omega arith)
      (λ b q.
        strcat-then 512 b (sprintf_i (pos i)) 50 11 _ q (length-sprintf_i (pos i) (omega arith))
          (omega arith) (λ c r. strcat-last 512 c _ (omega arith)))

pub list_command-fits : (node : ℤ) → IsInt node → Returns (list_command node) (λ c. length c < 456)
unfolding list_command
list_command-fits node h =
    strcpy-then 456 (codes "NODE_CPUIDS=\"\"\n") 16 _ (omega arith) (omega arith) (λ b q.
      strcat-then 456 b _ 16 46 _ q (omega arith) (omega arith) (λ b q.
        strcat-then 456 b (sprintf_i node) 62 11 _ q (length-sprintf_i node h) (omega arith) (λ b q.
          strcat-then 456 b _ 73 21 _ q (omega arith) (omega arith) (λ b q.
            strcat-then 456 b _ 94 62 _ q (omega arith) (omega arith) (λ b q.
              strcat-then 456 b _ 156 8 _ q (omega arith) (omega arith)
                (λ b q. strcat-last 456 b _ (omega arith)))))))

-- For every `int`, the commands that read a package number, the one that lists the CPUs of a node
-- and the one that counts the sharers of a cache level end before the end of the char arrays that
-- they are built in.
pub commands_fit :
    (n : ℤ) (level : ℕ)
    → IsInt n
    → level ≤ 2 ^ 31
    → Returns (package_command 256 n (codes "/topology/physical_package_id")) (λ c. length c < 256)
      × Returns
          (package_command 512 n (codes "/topology/physical_package_id\n"))
          (λ c. length c < 512)
      × Returns (list_command n) (λ c. length c < 456)
      × Returns (shared_command level) (λ c. length c < 512)
commands_fit n level h k = (
  package_command-fits 256 n _ h (omega arith) (omega arith),
  package_command-fits 512 n _ h (omega arith) (omega arith),
  list_command-fits n h,
  shared_command-fits level k,
)
