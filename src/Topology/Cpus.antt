-- ===== src/Topology/Cpus.antt =====
-- src/archTopology.c: the CPUs of a node and of a socket, and the sockets of a node.
pub mod Sort
pub mod Listing
pub mod Recursion
pub mod Sockets
use numafac.Libc.{TextBytes, codes, sprintf_i, strcpy, strcat, atoi, strtok, fgets}
use numafac.Os.{Os, read_into}
use numafac.Topology.Counts.{
  na_get_numcaches, na_get_maxcpus, na_get_cpusnode, na_get_sockets_node, na_get_cpussockets,
  na_get_socket_cpu, package_command,
}
use numafac.Topology.Caches.{
  size_of, na_get_shared_cache_level, na_get_cache_cores, na_get_cache_share_cores,
}
use numafac.Prelude.{pos_part}
use numafac.Prelude.{
  ℕ, zero, suc, ◌+◌, ◌-◌, ◌*◌, min, Bool, true, false, ◌||◌, Option, none, some, ◌==◌,
  if◌then◌else◌, replicate, ℤ, pos, negsuc, ltb_ℤ, eqb_ℤ, Run, ok, out_of_fuel, ◌>>=◌, deref,
  determinate, Array, malloc, load, store,
}

-- The delimiters " \n".
unfoldable pub is_blank : ℕ → Bool
is_blank c = c == 32 || c == 10

-- for (i = 1; i < tcpus; i++), with the rounds left, and the text left to `strtok`.
unfoldable pub read_ids : ℕ → ℕ → TextBytes → Array ℤ → Run (Array ℤ)
read_ids zero i rest cpusid = ok cpusid
read_ids (suc n) i rest cpusid = do
  (cpu, rest) ← deref (strtok is_blank rest)
  cpusid ← store cpusid i (atoi cpu)
  read_ids n (i + 1) rest cpusid

-- for (j = i - 1; j >= 0 && aux < cpusid[j]; j--) cpusid[j+1] = cpusid[j]; cpusid[j+1] = aux;
-- The number is j + 1.
unfoldable pub shift : ℤ → ℕ → Array ℤ → Run (Array ℤ)
shift aux zero cpusid = store cpusid 0 aux
shift aux (suc j) cpusid = do
  v ← load cpusid j
  elim (ltb_ℤ aux v) [
    | true ↦ do cpusid ← store cpusid (suc j) v; shift aux j cpusid
    | false ↦ store cpusid (suc j) aux
  ]

-- for (i = 1; i < tcpus; i++), with the rounds left.
unfoldable pub sort_ids : ℕ → ℕ → Array ℤ → Run (Array ℤ)
sort_ids zero i cpusid = ok cpusid
sort_ids (suc n) i cpusid = do
  aux ← load cpusid i
  cpusid ← shift aux i cpusid
  sort_ids n (i + 1) cpusid

-- The script that prints the CPUs of a node on one line, in `char command1[456]`.
unfoldable pub list_command : ℤ → Run TextBytes
list_command nodeid = do
  command1 ← strcpy 456 (codes "NODE_CPUIDS=\"\"\n")
  command1 ← strcat 456 command1 (codes " for i in `ls -d /sys/devices/system/node/node")
  let temp = sprintf_i nodeid
  command1 ← strcat 456 command1 temp
  command1 ← strcat 456 command1 (codes "/cpu[0-9]*`; \n do \n")
  command1 ←
      strcat 456 command1 (codes " NODE_CPUIDS=$NODE_CPUIDS\"`basename $i | sed s/cpu//` \"\n")
  command1 ← strcat 456 command1 (codes " done\n")
  strcat 456 command1 (codes " echo ${NODE_CPUIDS}\n")

-- What na_get_cpusidnode does with the line of CPUs, at `tcpus` CPUs.
unfoldable pub parse_ids : ℕ → TextBytes → Run (Array ℤ)
unfolding read_ids sort_ids
parse_ids tcpus resp = do
  (cpu, rest) ← deref (strtok is_blank resp)
  cpusid ← store (malloc tcpus) 0 (atoi cpu)
  cpusid ← read_ids (tcpus - 1) 1 rest cpusid
  sort_ids (tcpus - 1) 1 cpusid

-- The branch of na_get_cpusidnode in which no cache is shared, or the last one is.
unfoldable pub listed_ids : Os → ℤ → ℕ → Run (Array ℤ)
unfolding parse_ids
listed_ids os nodeid tcpus = do
  command1 ← list_command nodeid
  stream ← deref (os.popen command1)
  resp ← determinate (fgets (tcpus * 4 + 1) stream)
  parse_ids tcpus resp

-- while (!find && j < total_sock) if (socket == sockets_id[j]) find = 1; else j++;
unfoldable pub find_socket : ℤ → ℕ → ℕ → Array ℤ → Run Bool
find_socket socket zero j sockets_id = ok false
find_socket socket (suc n) j sockets_id = do
  s ← load sockets_id j
  elim (eqb_ℤ socket s) [ true ↦ ok true | false ↦ find_socket socket n (j + 1) sockets_id ]

-- The loop of na_get_socketsId_node over the CPUs from `i` on, with `k` sockets found.
unfoldable pub collect_sockets : Os → ℕ → ℕ → ℕ → Array ℤ → Array ℤ → Run (Array ℤ)
collect_sockets os zero i k cpus sockets_id = ok sockets_id
collect_sockets os (suc n) i k cpus sockets_id = do
  cpu ← load cpus i
  socket ← na_get_socket_cpu os cpu
  find ← find_socket socket na_get_sockets_node 0 sockets_id
  elim find [
    | true ↦ collect_sockets os n (i + 1) k cpus sockets_id
    | false ↦ do
      sockets_id ← store sockets_id k socket
      collect_sockets os n (i + 1) (k + 1) cpus sockets_id
  ]

-- na_get_socketsId_node, given what its call of na_get_cpusidnode comes to.
unfoldable pub sockets_of : Os → Run (Array ℤ) → Run (Array ℤ)
unfolding collect_sockets na_get_sockets_node na_get_cpusnode
sockets_of os cpusidnode = do
  cpus ← cpusidnode
  collect_sockets os na_get_cpusnode 0 0 cpus (replicate na_get_sockets_node (some (negsuc 0)))

-- The loop of na_get_cpusidsocket over the CPUs from `i` on, with `k` cores found.
unfoldable pub cores_of_socket : Os → ℤ → ℕ → ℕ → ℕ → Option ℤ → Array ℤ → Run (Array ℤ)
cores_of_socket os socket zero i k tmp tcores_ids = ok tcores_ids
cores_of_socket os socket (suc n) i k tmp tcores_ids = do
  command ← package_command 512 (pos i) (codes "/topology/physical_package_id\n")
  tmp ← read_into os command tmp
  physical ← determinate tmp
  elim (eqb_ℤ physical socket) [
    | true ↦ do
      tcores_ids ← store tcores_ids k (pos i)
      cores_of_socket os socket n (i + 1) (k + 1) tmp tcores_ids
    | false ↦ cores_of_socket os socket n (i + 1) k tmp tcores_ids
  ]

-- for (j = 0; j < max_cores_s && j < (shared - 1); j++), with the rounds left.
unfoldable pub copy_siblings : ℕ → ℕ → ℕ → Array ℤ → Array ℤ → Run (Array ℤ × ℕ)
copy_siblings zero j k s_cores cores_ids = ok (cores_ids, k)
copy_siblings (suc n) j k s_cores cores_ids = do
  s ← load s_cores j
  cores_ids ← store cores_ids k s
  copy_siblings n (j + 1) (k + 1) s_cores cores_ids

-- The second loop of na_get_cpusidsocket, from `i` on, at `siblings` rounds of the inner loop.
unfoldable pub with_siblings : Os → ℕ → ℕ → ℕ → ℕ → Array ℤ → Array ℤ → Run (Array ℤ)
unfolding copy_siblings
with_siblings os siblings zero i k tcores_ids cores_ids = ok cores_ids
with_siblings os siblings (suc n) i k tcores_ids cores_ids = do
  core ← load tcores_ids i
  s_cores ← na_get_cache_share_cores os core
  cores_ids ← store cores_ids k core
  (cores_ids, k) ← copy_siblings siblings 0 (k + 1) s_cores cores_ids
  with_siblings os siblings n (i + 1) k tcores_ids cores_ids

unfoldable pub na_get_cpusidsocket : Os → ℤ → Run (Array ℤ)
unfolding cores_of_socket with_siblings na_get_cpussockets na_get_maxcpus
na_get_cpusidsocket os socket = do
  shared ← na_get_cache_cores os
  tcores_ids ← cores_of_socket os socket na_get_maxcpus 0 0 none (malloc na_get_cpussockets)
  with_siblings os (min na_get_cpussockets (pos_part shared - 1)) na_get_cpussockets 0 0 tcores_ids
      (malloc na_get_cpussockets)

-- for (j = 0; j < max_cores_socket; j++) { cpusid[k] = cores_s[i]; k++; }, with the rounds left.
-- The index of `cores_s` is the outer loop's.
unfoldable pub copy_core : ℕ → ℕ → ℕ → Array ℤ → Array ℤ → Run (Array ℤ × ℕ)
copy_core zero i k cores_s cpusid = ok (cpusid, k)
copy_core (suc n) i k cores_s cpusid = do
  c ← load cores_s i
  cpusid ← store cpusid k c
  copy_core n i (k + 1) cores_s cpusid

unfoldable pub cores_of_sockets : Os → ℕ → ℕ → ℕ → Array ℤ → Array ℤ → Run (Array ℤ)
unfolding copy_core na_get_cpussockets na_get_cpusidsocket
cores_of_sockets os zero i k sockets_id cpusid = ok cpusid
cores_of_sockets os (suc n) i k sockets_id cpusid = do
  s ← load sockets_id i
  cores_s ← na_get_cpusidsocket os s
  (cpusid, k) ← copy_core na_get_cpussockets i k cores_s cpusid
  cores_of_sockets os n (i + 1) k sockets_id cpusid

-- The two ways of na_get_cpusidnode to fill the array: from the list of the node, if no cache is
-- shared or the last one is, and otherwise from the sockets, whose call of na_get_cpusidnode comes
-- to `cpus`.
unfoldable pub ids_of : Bool → Os → ℤ → ℤ → Run (Array ℤ) → Run (Array ℤ)
unfolding listed_ids cores_of_sockets sockets_of na_get_sockets_node size_of
ids_of true os nodeid count cpus = do tcpus ← size_of count; listed_ids os nodeid tcpus
ids_of false os nodeid count cpus = do
  sockets_id ← sockets_of os cpus
  tcpus ← size_of count
  cores_of_sockets os na_get_sockets_node 0 0 sockets_id (malloc tcpus)

-- The CPUs of a node. It calls na_get_socketsId_node, which calls it: the fuel bounds how deep.
unfoldable pub na_get_cpusidnode : Os → ℕ → ℤ → Run (Array ℤ)
unfolding ids_of
na_get_cpusidnode os zero nodeid = out_of_fuel
na_get_cpusidnode os (suc fuel) nodeid =
    let cpus = na_get_cpusidnode os fuel nodeid in
    do
      shared ← na_get_shared_cache_level os
      _ ← na_get_cache_cores os
      count ← read_into os (codes "ls -d /sys/devices/system/node/node0/cpu[0-9]* | wc -l") none
      count ← determinate count
      numcaches ← (if eqb_ℤ shared (negsuc 0) then ok shared else na_get_numcaches os)
      ids_of (eqb_ℤ shared (negsuc 0) || eqb_ℤ shared numcaches) os nodeid count cpus

-- The sockets of a node, each once.
unfoldable pub na_get_sockets_id_node : Os → ℕ → ℤ → Run (Array ℤ)
unfolding sockets_of na_get_cpusidnode
na_get_sockets_id_node os fuel node = sockets_of os (na_get_cpusidnode os fuel node)
