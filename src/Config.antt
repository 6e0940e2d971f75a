-- ===== src/Config.antt =====
-- The constants of include/archTopo.h, which topology.sh writes for the machine at hand.
use Prim.Native.Nat.{ℕ}

-- ISNUMA
abbrev pub is_numa_machine : ℕ
is_numa_machine = 1

-- MAXNODES
abbrev pub max_nodes : ℕ
max_nodes = 8

-- MAXCPUS
abbrev pub max_cpus : ℕ
max_cpus = 16

-- CPUSNODE
abbrev pub cpus_node : ℕ
cpus_node = 2

-- LLC
abbrev pub llc : ℕ
llc = 2

-- L1CACHE
abbrev pub l1_cache : ℕ
l1_cache = 64

-- TOTALMEM
abbrev pub total_mem : ℕ
total_mem = 3_668_048

-- MAXSOCKETS
abbrev pub max_sockets : ℕ
max_sockets = 0

-- SOCKETSNODE
abbrev pub sockets_node : ℕ
sockets_node = 1

-- FREQ, 2200.000, in thousandths.
abbrev pub freq_thousandths : ℕ
freq_thousandths = 2_200_000

-- MAXCORESSOCKET
abbrev pub max_cores_socket : ℕ
max_cores_socket = 2
