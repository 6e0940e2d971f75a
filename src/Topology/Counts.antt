-- ===== src/Topology/Counts.antt =====
-- src/archTopology.c: the numbers of nodes, CPUs, sockets and caches.
pub mod Packages
use numafac.Config.{
  max_nodes, max_cpus, cpus_node, max_sockets, sockets_node, max_cores_socket, freq_thousandths,
}
use numafac.Libc.{TextBytes, codes, sprintf_i, strcpy, strcat}
use numafac.Os.{Os, Floats, read_int, read_into}
use numafac.Prelude.{
  ℕ, zero, suc, ◌+◌, Option, none, some, ltb, if◌then◌else◌, ℤ, pos, negsuc, ◌-ℤ◌, eqb_ℤ, Run, ok,
  ◌>>=◌, deref, determinate,
}

-- The functions that return a constant of archTopo.h.
unfoldable pub na_get_maxnodes : ℕ
na_get_maxnodes = max_nodes

unfoldable pub na_get_maxcpus : ℕ
na_get_maxcpus = max_cpus

unfoldable pub na_get_cpusnode : ℕ
na_get_cpusnode = cpus_node

unfoldable pub na_get_sockets : ℕ
na_get_sockets = max_sockets

unfoldable pub na_get_sockets_node : ℕ
na_get_sockets_node = sockets_node

unfoldable pub na_get_cpussockets : ℕ
na_get_cpussockets = max_cores_socket

unfoldable pub is_numa : ℕ
unfolding na_get_maxnodes
is_numa = if ltb 1 na_get_maxnodes then 1 else 0

module _ (fl : Floats) where
  open fl use {F, thousandths}

  unfoldable pub na_get_freq : F
  na_get_freq = thousandths freq_thousandths

-- The path of the package number of a CPU, as na_get_socket_cpu and its like put it together in
-- `char command[size]`.
unfoldable pub package_command : ℕ → ℤ → TextBytes → Run TextBytes
package_command size cpu suffix = do
  command ← strcpy size (codes "cat /sys/devices/system/cpu/cpu")
  let temp = sprintf_i cpu
  command ← strcat size command temp
  strcat size command suffix

module _ (os : Os) where
  unfoldable pub get_maxnodes : Run ℤ
  get_maxnodes =
      read_int os (codes "ls -1d /sys/devices/system/node/node*|wc|awk '{print $1}'") (pos 1)

  unfoldable pub get_maxcpus : Run ℤ
  get_maxcpus = read_int os (codes "ls -d /sys/devices/system/cpu/cpu[0-9]* | wc -l") (negsuc 0)

  unfoldable pub get_cpusnode : Run ℤ
  get_cpusnode =
      read_int os (codes "ls -d /sys/devices/system/node/node0/cpu[0-9]* | wc -l") (negsuc 0)

  -- The number of entries of the directory of caches, less one.
  unfoldable pub na_get_numcaches : Run ℤ
  na_get_numcaches = do
    command ← strcpy 256 (codes "ls /sys/devices/system/node/node0/cpu0/cache/ | wc -l")
    ncaches ← read_int os command (negsuc 0)
    ok (ncaches -ℤ pos 1)

  unfoldable pub na_get_socket_cpu : ℤ → Run ℤ
  na_get_socket_cpu cpu = do
    command ← package_command 256 cpu (codes "/topology/physical_package_id")
    read_int os command (negsuc 0)

  unfoldable pub get_sockets : Run ℤ
  get_sockets = do
    c ← strcpy 1024 (codes "PACKAGE_COUNT=1;\n")
    c ←
        strcat 1024 c
          (codes " CPU_POSSIBLE_COUNT=`ls -d /sys/devices/system/node/node0/cpu[0-9]* | wc -l` \n")
    c ← strcat 1024 c (codes " for ((i=0;i<${CPU_POSSIBLE_COUNT};++i)); \n do \n")
    c ←
        strcat 1024 c
          (codes "p=`cat /sys/devices/system/node/node0/cpu${i}/topology/physical_package_id` \n")
    c ← strcat 1024 c (codes " PACKAGE[${p}]+=\"${i} \" \n")
    c ← strcat 1024 c (codes " if [ ${PACKAGE_COUNT} -lt $((${p}+1)) ]; then \n")
    c ← strcat 1024 c (codes " let PACKAGE_COUNT=$((${p}+1)) \n fi \n done\n")
    c ← strcat 1024 c (codes " echo ${PACKAGE_COUNT}")
    read_int os c (negsuc 0)

  unfoldable pub get_sockets_node : Run ℤ
  get_sockets_node = do
    c ← strcpy 1024 (codes "NODE_CPUIDS=\"\"\n")
    c ← strcat 1024 c (codes " for i in `ls -d /sys/devices/system/node/node0/cpu[0-9]*`; \n do \n")
    c ← strcat 1024 c (codes " NODE_CPUIDS=$NODE_CPUIDS\"`basename $i | sed s/cpu//` \"\n")
    c ← strcat 1024 c (codes " done\n")
    c ← strcat 1024 c (codes "PACKAGE_COUNT=1;\n j=0;\n")
    c ← strcat 1024 c (codes "for i in ${NODE_CPUIDS} \n do \n")
    c ← strcat 1024 c (codes "let j=j+1 \n")
    c ←
        strcat 1024 c
          (codes "p=`cat /sys/devices/system/cpu/cpu${i}/topology/physical_package_id` \n")
    c ← strcat 1024 c (codes " PACKAGE[${p}]+=\"${j} \" \n")
    c ← strcat 1024 c (codes " if [ ${PACKAGE_COUNT} -lt $((${p}+1)) ]; then \n")
    c ← strcat 1024 c (codes " let PACKAGE_COUNT=$((${p}+1)) \n fi \n done\n")
    c ← strcat 1024 c (codes " echo ${PACKAGE_COUNT}")
    read_int os c (negsuc 0)

  -- The loop of get_cpussockets over `n` CPUs from `cpu` on, with what `tmp` holds.
  unfoldable pub count_socket_0 : ℕ → ℕ → Option ℤ → ℕ → Run ℕ
  count_socket_0 zero cpu tmp max_cores_s = ok max_cores_s
  count_socket_0 (suc n) cpu tmp max_cores_s = do
    command ← package_command 512 (pos cpu) (codes "/topology/physical_package_id\n")
    tmp ← read_into os command tmp
    physical ← determinate tmp
    count_socket_0 n (cpu + 1) tmp (if eqb_ℤ physical (pos 0) then max_cores_s + 1 else max_cores_s)

  unfoldable pub get_cpussockets : Run ℕ
  unfolding count_socket_0 na_get_maxcpus
  get_cpussockets = count_socket_0 na_get_maxcpus 0 none 0

  module _ (fl : Floats) where
    open fl use {F, thousandths, scan}

    unfoldable pub get_freq : Run F
    get_freq = do
      command ←
          strcpy 256 (codes "cat /proc/cpuinfo | grep 'cpu MHz' | head -n 1 | awk '{print $4}'")
      stream ← deref (os.popen command)
      ok (elim ((scan stream).0) [ none ↦ thousandths 0 | some x ↦ x ])
