-- ===== src/Topology/Caches.antt =====
-- src/archTopology.c: the cache levels that cores share, and the cores that share one.
pub mod Share
pub mod Levels
use numafac.Libc.{TextBytes, codes, sprintf_i, strcpy, strcat, atoi, strtok, fgets}
use numafac.Os.{Os, read_int, read_into}
use numafac.Topology.Counts.{na_get_numcaches}
use numafac.Prelude.{
  ℕ, zero, suc, ◌+◌, ◌-◌, ◌*◌, Bool, true, false, ◌||◌, Option, none, ◌==◌, if◌then◌else◌, ℤ, pos,
  negsuc, ltb_ℤ, eqb_ℤ, null_pointer, Run, ok, fault, ◌>>=◌, deref, determinate, Array, malloc,
  store,
}

-- The argument of `malloc` as a number of cells. A negative one asks for more than there is.
unfoldable pub size_of : ℤ → Run ℕ
size_of (pos n) = ok n
size_of (negsuc n) = fault null_pointer

-- The rounds of `for (i = 2; i <= nr_caches; i++)`.
unfoldable pub rounds_from_2 : ℤ → ℕ
rounds_from_2 (pos n) = n - 1
rounds_from_2 (negsuc n) = 0

-- The command that counts the entries of CPU 0's list at a cache level, in `char command[512]`.
unfoldable pub shared_command : ℕ → Run TextBytes
shared_command i = do
  command ← strcpy 512 (codes "cat /sys/devices/system/cpu/cpu0/cache/index")
  let temp = sprintf_i (pos i)
  command ← strcat 512 command temp
  strcat 512 command (codes "/shared_cpu_list | sed s/,/'\\n'/g | wc -l")

module _ (os : Os) where
  -- The loop of na_get_shared_cacheLevel from level `i` on, with what `res` holds.
  unfoldable pub shared_level : ℕ → ℕ → Option ℤ → Run ℤ
  shared_level zero i res = ok (negsuc 0)
  shared_level (suc n) i res = do
    command ← shared_command i
    res ← read_into os command res
    count ← determinate res
    elim (ltb_ℤ (pos 1) count) [ true ↦ ok (pos i) | false ↦ shared_level n (i + 1) res ]

  unfoldable pub na_get_shared_cache_level : Run ℤ
  na_get_shared_cache_level = do
    nr_caches ← na_get_numcaches os
    shared_level (rounds_from_2 nr_caches) 2 none

  -- The loop of na_get_cache_cores, which goes on as long as `res` is 1.
  unfoldable pub cache_cores_loop : ℕ → ℕ → ℤ → Run ℤ
  cache_cores_loop zero i res = ok res
  cache_cores_loop (suc n) i res = elim (eqb_ℤ res (pos 1)) [
    | true ↦ do
      command ← shared_command i
      res ← read_int os command res
      cache_cores_loop n (i + 1) res
    | false ↦ ok res
  ]

  unfoldable pub na_get_cache_cores : Run ℤ
  na_get_cache_cores = do
    nr_caches ← na_get_numcaches os
    cache_cores_loop (rounds_from_2 nr_caches) 2 (pos 1)

-- The delimiters ",\n".
unfoldable pub is_comma : ℕ → Bool
is_comma c = c == 44 || c == 10

-- if (atoi(cpu) != core) taux[i] = atoi(cpu);
unfoldable pub keep_other : ℤ → ℕ → TextBytes → Array ℤ → Run (Array ℤ)
keep_other core i cpu taux = if eqb_ℤ (atoi cpu) core then ok taux else store taux i (atoi cpu)

-- for (i = k; i < cache_cores - 1; i++), with the rounds left, and the text left to `strtok`.
unfoldable pub share_loop : ℤ → ℕ → ℕ → TextBytes → Array ℤ → Run (Array ℤ)
share_loop core zero i rest taux = ok taux
share_loop core (suc n) i rest taux = do
  (cpu, rest) ← deref (strtok is_comma rest)
  taux ← keep_other core i cpu taux
  share_loop core n (i + 1) rest taux

-- The rest of na_get_cacheShare_cores behind the first token, which is the core itself or not, at
-- an array of `m` cells.
unfoldable pub share_from : Bool → ℤ → ℕ → ℤ → TextBytes → Run (Array ℤ)
share_from true core m first rest = share_loop core m 0 rest (malloc m)
share_from false core m first rest = do
  taux ← store (malloc m) 0 first
  share_loop core (m - 1) 1 rest taux

-- What na_get_cacheShare_cores does with the line that it read, at `cache_cores` cores.
unfoldable pub share_cores : ℤ → ℕ → TextBytes → Run (Array ℤ)
share_cores core cache_cores resp = do
  (cpu, rest) ← deref (strtok is_comma resp)
  share_from (eqb_ℤ (atoi cpu) core) core (cache_cores - 1) (atoi cpu) rest

unfoldable pub na_get_cache_share_cores : Os → ℤ → Run (Array ℤ)
unfolding share_cores na_get_shared_cache_level na_get_cache_cores
na_get_cache_share_cores os core = do
  shared ← na_get_shared_cache_level os
  cache_cores ← na_get_cache_cores os
  n ← size_of cache_cores
  command1 ← strcpy 512 (codes "cat /sys/devices/system/cpu/cpu")
  let temp = sprintf_i core
  command1 ← strcat 512 command1 temp
  command1 ← strcat 512 command1 (codes "/cache/index")
  let temp = sprintf_i shared
  command1 ← strcat 512 command1 temp
  command1 ← strcat 512 command1 (codes "/shared_cpu_list")
  stream ← deref (os.popen command1)
  resp ← determinate (fgets (n * 4 + 1) stream)
  share_cores core n resp
