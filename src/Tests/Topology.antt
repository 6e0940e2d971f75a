-- ===== src/Tests/Topology.antt =====
-- The theorems on src/archTopology.c, each at an input.
use numafac.Topology.Cpus.{na_get_sockets_id_node}
use numafac.Topology.Caches.{share_cores}
use numafac.Tests.Machine.{fours}
use numafac.Topology.Cpus.{na_get_sockets_id_node}
use numafac.Topology.Cpus.Recursion.{SharesInner, na_get_cpusidnode-out_of_fuel}
use numafac.Topology.Caches.{share_cores}
use numafac.Topology.Caches.Levels.{
  entries, PrintsEntries, IsFirstShared, shared_cache-IsFirstShared,
}
use numafac.Topology.Caches.Share.{share_cores-ends, share_cores-middle}
use numafac.Topology.Affinity.{na_set_core, na_get_core}
use numafac.Topology.Affinity.Pinning.{na_get_core-na_set_core}
use numafac.Tests.Machine.{stacked, sharers, one_cpu, one_cpu-Pins}
use numafac.Libc.{
  TextBytes, codes, same_text, starts_with, scan_int, scan_signed, scan_unsigned, with_sign,
  digits_value, is_digit, is_space, skip_spaces, decimal, decimal_fuel, sprintf_i, strcpy, strcat,
  atoi, strtok, skip_while, token_at, token_end, fgets, line,
}
use numafac.Libc.Joined.{joined}
use numafac.Os.{read_into, read_int}
use numafac.Topology.Counts.{na_get_numcaches}
use numafac.Topology.Caches.{
  size_of, rounds_from_2, shared_command, shared_level, na_get_shared_cache_level, cache_cores_loop,
  na_get_cache_cores,
}
use numafac.Topology.Cpus.{
  is_blank, read_ids, shift, sort_ids, list_command, parse_ids, listed_ids, ids_of,
  na_get_cpusidnode,
}
use numafac.Topology.Cpus.Listing.{HoldsSorted, ListsNode, na_get_cpusidnode-HoldsSorted}
use numafac.Tests.Machine.{machine}
use numafac.Prelude.{
  ℕ, zero, suc, ◌<◌, ◌≡◌, refl, ap, subst, ◌≢◌, ◌⊎◌, inl, true, none, some, [], ◌∷◌, arith, ◌==◌,
  pos, negsuc, ◌-ℤ◌, eqb_ℤ, null_pointer, ok, fault, out_of_fuel, Returns, load, store, filled,
  value_or,
}

-- Opens what a run of the functions on this machine calls.
program : Unit {0}
unfolding same_text starts_with scan_int scan_signed scan_unsigned with_sign digits_value is_digit
    is_space skip_spaces decimal decimal_fuel sprintf_i strcpy strcat atoi strtok skip_while
    token_at token_end fgets line joined read_into read_int na_get_numcaches size_of rounds_from_2
    shared_command shared_level na_get_shared_cache_level cache_cores_loop na_get_cache_cores
    is_blank read_ids shift sort_ids list_command parse_ids listed_ids ids_of na_get_cpusidnode ◌-ℤ◌
    eqb_ℤ load store
program = tt

-- The line "9 3 11" is read and sorted.
na_get_cpusidnode_runs :
    na_get_cpusidnode machine 1 (pos 0) ≡ ok (filled (pos 3 ∷ pos 9 ∷ pos 11 ∷ []))
unfolding program
na_get_cpusidnode_runs = refl

list_text : TextBytes
unfolding program
list_text = value_or [] (list_command (pos 1))

-- Node 1, of which the script lists three CPUs, as many as the command counts for node 0.
machine-ListsNode : ListsNode machine (pos 1) 3 (9 ∷ 3 ∷ 11 ∷ [])
unfolding program list_text
machine-ListsNode = record {
  shared = negsuc 0;
  levels = pos 0;
  cores = pos 1;
  shared_is = refl;
  levels_is = refl;
  cores_is = refl;
  not_inner = inl refl;
  counted = refl;
  listed = λ c e. subst (λ x. machine.popen x ≡ some (codes "9 3 11\n")) (ap (value_or []) e) refl;
}

na_get_cpusidnode-HoldsSorted_example :
    ((0 ≡ zero) × Returns (na_get_cpusidnode machine 1 (pos 1)) (HoldsSorted (9 ∷ 3 ∷ 11 ∷ [])))
    ⊎ ((0 < 0) × (na_get_cpusidnode machine 1 (pos 1) ≡ fault null_pointer))
unfolding joined decimal decimal_fuel
na_get_cpusidnode-HoldsSorted_example =
    na_get_cpusidnode-HoldsSorted machine 0 (pos 1) 9 (3 ∷ 11 ∷ []) [] 0 (omega arith)
      machine-ListsNode (inl refl) (omega arith)

fours-SharesInner : SharesInner fours
unfolding program
fours-SharesInner = record {
  shared = pos 2;
  levels = pos 3;
  cores = pos 4;
  count = pos 4;
  shared_is = refl;
  levels_is = refl;
  cores_is = refl;
  some_level = refl;
  inner = refl;
  counted = refl;
}

na_get_cpusidnode-out_of_fuel_example :
    (na_get_cpusidnode fours 1000 (pos 0) ≡ out_of_fuel)
    × (na_get_sockets_id_node fours 1000 (pos 0) ≡ out_of_fuel)
na_get_cpusidnode-out_of_fuel_example =
    na_get_cpusidnode-out_of_fuel fours 1000 (pos 0) fours-SharesInner

three_levels : na_get_numcaches stacked ≡ ok (pos 3)
unfolding program
three_levels = refl

stacked-answers : (j : ℕ) → j < 4 → PrintsEntries stacked sharers j
unfolding program
stacked-answers zero h = refl
stacked-answers (suc zero) h = refl
stacked-answers (suc (suc zero)) h = refl
stacked-answers (suc (suc (suc zero))) h = refl
stacked-answers (suc (suc (suc (suc j)))) h = absurd (omega arith)

shared_cache-IsFirstShared_example :
    Returns
      (na_get_shared_cache_level stacked)
      (λ s. Returns (na_get_cache_cores stacked) (IsFirstShared (λ j. entries (sharers j)) 2 4 s))
shared_cache-IsFirstShared_example =
    shared_cache-IsFirstShared stacked sharers 2 (omega arith) three_levels stacked-answers

-- Level 3 of this machine is the first one with two entries.
stacked_level : na_get_shared_cache_level stacked ≡ ok (pos 3)
unfolding program
stacked_level = refl

share_cores-ends_example :
    (share_cores (pos 0) 3 (joined 44 (0 ∷ 1 ∷ 2 ∷ [])) ≡ ok (filled (pos 1 ∷ pos 2 ∷ [])))
    × (share_cores (pos 0) 3 (joined 44 (1 ∷ 2 ∷ 0 ∷ [])) ≡ ok (filled (pos 1 ∷ pos 2 ∷ [])))
share_cores-ends_example = share_cores-ends 0 1 (2 ∷ []) (refl, (refl, tt))

-- Core 1 of the line "0,1,2,3".
share_cores-middle_example :
    share_cores (pos 1) 4 (joined 44 (0 ∷ 1 ∷ 2 ∷ 3 ∷ []))
    ≡ ok (some (pos 0) ∷ none ∷ some (pos 2) ∷ [])
share_cores-middle_example = share_cores-middle 1 0 3 [] (2 ∷ []) (refl, tt) (refl, tt)

na_get_core-na_set_core_example :
    ((na_set_core one_cpu (λ i. true) (pos 1) (pos 3)).1 ≡ pos 0
      → na_get_core one_cpu (na_set_core one_cpu (λ i. true) (pos 1) (pos 3)).0 (pos 1)
        ≡ ok (pos 3))
    × ((na_set_core one_cpu (λ i. true) (pos 1) (pos 3)).1 ≢ pos 0
        → na_set_core one_cpu (λ i. true) (pos 1) (pos 3) ≡ ((λ i. true), negsuc 0))
na_get_core-na_set_core_example =
    na_get_core-na_set_core one_cpu (λ i. i == 3) one_cpu-Pins (λ i. true) (pos 1) 3 (omega arith)
