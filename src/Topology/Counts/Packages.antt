-- ===== src/Topology/Counts/Packages.antt =====
-- The number of cores of socket 0.
use numafac.Libc.{TextBytes, codes}
use numafac.Os.{Os, read_into}
use numafac.Topology.Counts.{package_command, count_socket_0, get_cpussockets, na_get_maxcpus}
use numafac.Prelude.{
  ℕ, zero, suc, ◌+◌, ◌<◌, ◌≡◌, ap, ◌∙◌, inl, inr, Option, none, some, arith, ◌==◌, if◌then◌else◌,
  Bool-cases, ℤ, pos, ok, eqb_ℤ-pos,
}

-- How many of the `n` numbers g(k), g(k + 1), ... are 0.
abbrev pub zeros : (ℕ → ℕ) → ℕ → ℕ → ℕ
zeros g k zero = 0
zeros g k (suc n) = (if g k == 0 then 1 else 0) + zeros g (k + 1) n

module _ (os : Os) (package_of : ℕ → ℕ) where
  -- The command for the package of a CPU is built, runs, and prints its number.
  pub record PrintsPackage (cpu : ℕ) : Type 0 where
    pub command : TextBytes
    pub built : package_command 512 (pos cpu) (codes "/topology/physical_package_id\n") ≡ ok command
    pub read : (x : Option ℤ) → read_into os command x ≡ ok (some (pos (package_of cpu)))

  count_socket_0-zeros :
      (n cpu m : ℕ) (tmp : Option ℤ)
      → ((i : ℕ) → i < cpu + n → PrintsPackage i)
      → count_socket_0 os n cpu tmp m ≡ ok (m + zeros package_of cpu n)
  unfolding count_socket_0
  count_socket_0-zeros zero cpu m tmp h = ap ok (omega arith)
  count_socket_0-zeros (suc n) cpu m tmp h =
      let here = h cpu (omega arith) in
      rw (here.built, here.read tmp, eqb_ℤ-pos (package_of cpu) 0)
        (elim (Bool-cases (package_of cpu == 0)) [
          | inl e ↦ rw e (
              count_socket_0-zeros n (cpu + 1) (m + 1) (some (pos (package_of cpu)))
                (λ i p. h i (omega arith))
              ∙ ap ok (omega arith))
          | inr e ↦ rw e (
              count_socket_0-zeros n (cpu + 1) m (some (pos (package_of cpu)))
                (λ i p. h i (omega arith))
              ∙ ap ok (omega arith))
        ])

  -- Where the package of each of the 16 CPUs can be read, get_cpussockets returns how many of them
  -- are of package 0.
  pub get_cpussockets-zeros :
      ((cpu : ℕ) → cpu < 16 → PrintsPackage cpu) → get_cpussockets os ≡ ok (zeros package_of 0 16)
  unfolding get_cpussockets na_get_maxcpus
  get_cpussockets-zeros h =
      count_socket_0-zeros 16 0 0 none (λ i p. h i (omega arith)) ∙ ap ok (omega arith)
