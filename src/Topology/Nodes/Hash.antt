-- ===== src/Topology/Nodes/Hash.antt =====
-- The table of nodes answers as the search in the node directories does.
use numafac.Libc.{TextBytes}
use numafac.Os.{Os}
use numafac.Topology.Nodes.{get_nodeidcpu, load_hash, na_init, na_get_nodeidcpu}
use numafac.Topology.Nodes.Home.{path_of, get_nodeidcpu-IsHome}
use numafac.Prelude.{
  ℕ, ◌<◌, ◌≡◌, refl, sym, ap, ◌∙◌, inl, inr, some, List, [], arith, ltb, if◌then◌else◌, ltb→lt,
  lt→ltb, Bool-cases, ℤ, pos, out_of_bounds, ok, fault, ◌>>=◌, filled, load-filled, tabulate,
  get_elem?-tabulate, fill-ok, value_or, Returns-value_or, load-filled_beyond,
}

module _ (os : Os) (dirs : ℕ → List TextBytes) where
  node_table : ℕ → ℤ
  node_table cpu = value_or (pos 0) (get_nodeidcpu os cpu)

  load_hash-filled :
      ((j : ℕ) → j < 8 → os.opendir (path_of j) ≡ some (dirs j))
      → load_hash os ≡ ok (some (filled (tabulate node_table 0 16)))
  unfolding load_hash node_table
  load_hash-filled present = rw (
      fill-ok (get_nodeidcpu os) node_table 16 0 [] refl (λ i p.
        Returns-value_or _ (pos 0) (get_nodeidcpu os i)
          (get_nodeidcpu-IsHome os dirs i (omega arith) present)))

  -- Where all eight node directories exist, `na_get_nodeidcpu` after `na_init` answers for each of
  -- the 16 CPUs what the search `get_nodeidcpu` finds, and any other number is an access outside
  -- of the table.
  pub na_get_nodeidcpu-na_init :
      ((j : ℕ) → j < 8 → os.opendir (path_of j) ≡ some (dirs j))
      → (cpu : ℕ)
      → (na_init os >>= λ h. na_get_nodeidcpu h cpu)
        ≡ (if ltb cpu 16 then get_nodeidcpu os cpu else fault out_of_bounds)
  unfolding na_init na_get_nodeidcpu node_table
  na_get_nodeidcpu-na_init present cpu =
      rw (load_hash-filled present) (elim (Bool-cases (ltb cpu 16)) [
        | inl inside ↦ rw inside (
            load-filled (tabulate node_table 0 16) cpu
              (get_elem?-tabulate node_table 16 0 cpu (ltb→lt cpu 16 inside))
            ∙ ap (λ j. ok (node_table j)) (omega arith)
            ∙ sym (
                Returns-value_or _ (pos 0) (get_nodeidcpu os cpu)
                  (get_nodeidcpu-IsHome os dirs cpu (omega (arith, ltb→lt cpu 16 inside)) present)))
        | inr beyond ↦ rw beyond (
            load-filled_beyond (tabulate node_table 0 16) cpu
              (λ p. cc (sym beyond, lt→ltb cpu 16 p)))
      ])
