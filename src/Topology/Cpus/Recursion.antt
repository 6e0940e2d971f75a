-- ===== src/Topology/Cpus/Recursion.antt =====
-- Where cores share a cache level that is not the last, `na_get_cpusidnode` and
-- `na_get_socketsId_node` call each other without end.
use numafac.Libc.{codes}
use numafac.Os.{Os, read_into}
use numafac.Topology.Caches.{na_get_shared_cache_level, na_get_cache_cores}
use numafac.Topology.Counts.{na_get_numcaches}
use numafac.Topology.Cpus.{sockets_of, na_get_cpusidnode, na_get_sockets_id_node}
use numafac.Prelude.{ℕ, zero, suc, ◌≡◌, refl, false, none, some, ℤ, negsuc, eqb_ℤ, ok, out_of_fuel}

-- The machine answers all that is asked, and a level below the last is the first shared one.
pub record SharesInner (os : Os) : Type 0 where
  pub shared : ℤ
  pub levels : ℤ
  pub cores : ℤ
  pub count : ℤ
  pub shared_is : na_get_shared_cache_level os ≡ ok shared
  pub levels_is : na_get_numcaches os ≡ ok levels
  pub cores_is : na_get_cache_cores os ≡ ok cores
  pub some_level : eqb_ℤ shared (negsuc 0) ≡ false
  pub inner : eqb_ℤ shared levels ≡ false
  pub counted :
      read_into os (codes "ls -d /sys/devices/system/node/node0/cpu[0-9]* | wc -l") none
      ≡ ok (some count)

never_returns :
    (os : Os) (fuel : ℕ) (node : ℤ) → SharesInner os → na_get_cpusidnode os fuel node ≡ out_of_fuel
unfolding na_get_cpusidnode
never_returns os zero node s = refl
never_returns os (suc fuel) node s = rw (
  s.shared_is,
  s.cores_is,
  s.counted,
  s.some_level,
  s.levels_is,
  s.inner,
  never_returns os fuel node s,
)

-- On a machine where the first cache level that cores share is not the last one, no depth of
-- recursion is enough for `na_get_cpusidnode` or for `na_get_socketsId_node`: neither returns.
pub na_get_cpusidnode-out_of_fuel :
    (os : Os) (fuel : ℕ) (node : ℤ)
    → SharesInner os
    → (na_get_cpusidnode os fuel node ≡ out_of_fuel)
      × (na_get_sockets_id_node os fuel node ≡ out_of_fuel)
unfolding na_get_sockets_id_node sockets_of
na_get_cpusidnode-out_of_fuel os fuel node s =
    (never_returns os fuel node s, rw (never_returns os fuel node s))
