-- ===== src/Tests/Topo.antt =====
-- The theorem on topo/topo.c at an input.
use numafac.Libc.{
  codes, is_digit, is_space, skip_spaces, scan_int, scan_signed, scan_unsigned, with_sign,
  digits_value, atoi,
}
use numafac.Topology.Counts.{na_get_maxcpus}
use numafac.Topology.Neighbors.Rows.{ScansInts}
use numafac.Topo.{Distributions, choose, threads_of, selected, topo_main}
use numafac.Topo.Printed.{topo_main-ScansInts}
use numafac.Prelude.{ℕ, refl, [], ◌∷◌, map, ℤ, pos, eqb_ℤ, Returns, Array, filled, tabulate}

abbrev in_order : ℕ → Array ℤ
in_order n = filled (map pos (tabulate (λ i. i) 0 n))

-- Thread i runs on core i.
abbrev identity : Distributions
identity = record {
  na_compute_ids_nodes = λ n t h. in_order n;
  na_compute_ids_cores = λ n t h. in_order n;
  na_max_share_ht = in_order;
  na_min_share_ht = in_order;
  na_work_stealing_max = λ n h. in_order n;
  na_work_stealing_min = λ n h. in_order n;
}

topo_main-ScansInts_example :
    Returns
      (topo_main identity (codes "topo" ∷ codes "1" ∷ codes "1" ∷ codes "0" ∷ codes "3" ∷ []))
      (λ out. ScansInts out (map pos (tabulate (λ i. i) 0 8)))
unfolding selected choose threads_of na_get_maxcpus eqb_ℤ atoi scan_int scan_signed scan_unsigned
    with_sign digits_value is_digit is_space skip_spaces
topo_main-ScansInts_example =
    topo_main-ScansInts identity (codes "topo") (codes "1") (codes "1") (codes "0") (codes "3")
      (tabulate (λ i. i) 0 8) refl refl
