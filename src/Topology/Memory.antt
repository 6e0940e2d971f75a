-- ===== src/Topology/Memory.antt =====
-- src/archTopology.c: amounts of memory and the sizes of caches.
pub mod LastLevel
use numafac.Config.{llc, l1_cache, total_mem}
use numafac.Libc.{TextBytes, codes, sprintf_i, strcpy, strcat, atoi, scan_word}
use numafac.Os.{Os, read_int}
use numafac.Prelude.{ℕ, ℤ, pos, negsuc, ◌-ℤ◌, ulong, low_word, Run, ok, ◌>>=◌, deref}

-- The functions that return a constant of archTopo.h.
unfoldable pub na_get_totalmem : ℕ
na_get_totalmem = total_mem

unfoldable pub na_get_totalcache : ℕ
na_get_totalcache = llc

unfoldable pub na_get_tcache : ℕ
na_get_tcache = l1_cache

-- The command that prints the size of a cache of CPU 0, in `char command[512]`.
unfoldable pub size_command : ℤ → Run TextBytes
size_command cl = do
  let temp = sprintf_i cl
  command ← strcpy 512 (codes "cat /sys/devices/system/cpu/cpu0/cache/index")
  command ← strcat 512 command temp
  strcat 512 command (codes "/size | tr -d 'K'")

module _ (os : Os) where
  -- `int mem = -1;`, returned as an `unsigned long`.
  unfoldable pub get_totalmem : Run ℕ
  get_totalmem = do
    command ← strcpy 256 (codes "awk '/MemTotal/ {print $2}' /proc/meminfo")
    mem ← read_int os command (negsuc 0)
    ok (ulong mem)

  unfoldable pub na_get_freemem : Run ℤ
  na_get_freemem = do
    command ← strcpy 256 (codes "awk '/MemFree/ {print $2}' /proc/meminfo")
    read_int os command (negsuc 0)

  -- `unsigned long mem_node = 0;`, of which "%d" writes the lower half.
  unfoldable pub na_get_totalmem_node : Run ℕ
  na_get_totalmem_node = do
    command ← strcpy 256 (codes "awk '/MemTotal/ {print $4}' /sys/devices/system/node/node0")
    command ← strcat 256 command (codes "/meminfo")
    mem_node ← read_int os command (pos 0)
    ok (low_word mem_node)

  unfoldable pub na_get_memnode : ℤ → Run ℤ
  na_get_memnode nodeid = do
    let temp = sprintf_i nodeid
    command ← strcpy 256 (codes "awk '/MemFree/ {print $4}' /sys/devices/system/node/node")
    command ← strcat 256 command temp
    command ← strcat 256 command (codes "/meminfo")
    read_int os command (negsuc 0)

  unfoldable pub get_tcache : Run ℕ
  get_tcache = do
    command ← strcpy 256 (codes "cat /sys/devices/system/cpu/cpu0/cache/index0")
    command ← strcat 256 command (codes "/size | tr -d 'K'")
    mem_node ← read_int os command (pos 0)
    ok (low_word mem_node)

  -- The number of caches goes through `char cachel[2]`.
  unfoldable pub get_totalcache : Run ℕ
  get_totalcache = do
    command ← strcpy 512 (codes "ls -d /sys/devices/system/cpu/cpu0/cache/index[0-9]* | wc -l")
    stream ← deref (os.popen command)
    cachel ← strcpy 2 (scan_word stream)
    let cl = atoi cachel -ℤ pos 1
    command ← size_command cl
    mem_node ← read_int os command (pos 0)
    ok (low_word mem_node)
