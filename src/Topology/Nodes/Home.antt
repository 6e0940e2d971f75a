-- ===== src/Topology/Nodes/Home.antt =====
-- The search for a CPU's node finds the first node that lists it.
use numafac.Prelude.{Returns_mono}
use numafac.Libc.{
  TextBytes, codes, sprintf_i, strcpy-ok, strcat-ok, same_text, same_text→eq, same_text_refl,
  length-sprintf_i, length-sprintf_i_pos,
}
use numafac.Os.{Os}
use numafac.Topology.Nodes.{node_path, has_entry, find_node, cpu_name, get_nodeidcpu}
use numafac.Prelude.{
  ℕ, zero, suc, ◌+◌, ◌^◌, ◌≤◌, ◌<◌, ◌≡◌, refl, sym, ◌⊎◌, inl, inr, true, some, List, [], ◌∷◌, ◌++◌,
  append-nil, arith, ℕ_discrete, Bool-cases, length, length-append, ℤ, pos, negsuc, ok, Returns,
}

-- `name` is an entry of the directory.
abbrev pub Listed : TextBytes → List TextBytes → Type 0
Listed name [] = ⊥
Listed name (n ∷ ns) = (n ≡ name) ⊎ Listed name ns

has_entry→Listed :
    (name : TextBytes) (ns : List TextBytes) → has_entry name ns ≡ true → Listed name ns
unfolding has_entry
has_entry→Listed name [] h = cc
has_entry→Listed name (n ∷ ns) h = elim (Bool-cases (same_text name n)) [
  | inl e ↦ inl (sym (same_text→eq name n e))
  | inr e ↦ inr (has_entry→Listed name ns (rw e at h))
]

Listed→has_entry :
    (name : TextBytes) (ns : List TextBytes) → Listed name ns → has_entry name ns ≡ true
unfolding has_entry
Listed→has_entry name [] l = elim l [ ]
Listed→has_entry name (n ∷ ns) (inl e) = rw (e, same_text_refl name)
Listed→has_entry name (n ∷ ns) (inr l) = ground (arith, Listed→has_entry name ns l)

-- The path that the program builds for node `i`.
pub path_of : ℕ → TextBytes
path_of i = codes "/sys/devices/system/node/node" ++ sprintf_i (pos i)

node_path-ok : (i : ℕ) → i ≤ 2 ^ 31 → node_path i ≡ ok (path_of i)
unfolding node_path path_of
node_path-ok i h = rw (strcpy-ok 256 (codes "/sys/devices/system/node/node") (omega arith)) (
    strcat-ok 256 (codes "/sys/devices/system/node/node") (sprintf_i (pos i))
      (omega (arith, length-sprintf_i (pos i) (omega arith))))

-- "cpu" and the number.
pub name_of : ℕ → TextBytes
name_of cpu = codes "cpu" ++ sprintf_i (pos cpu)

-- What the search must return among the nodes that are left: the first that lists the CPU, or -1.
abbrev pub IsHome : (ℕ → List TextBytes) → TextBytes → ℕ → ℕ → ℤ → Type 0
IsHome dirs name lo hi (pos i) =
    (lo ≤ i) × (i < hi) × Listed name (dirs i) × ((j : ℕ) → lo ≤ j → j < i → ¬ Listed name (dirs j))
IsHome dirs name lo hi (negsuc k) = (k ≡ 0) × ((j : ℕ) → lo ≤ j → j < hi → ¬ Listed name (dirs j))

IsHome-later :
    (dirs : ℕ → List TextBytes) (name : TextBytes) (lo hi : ℕ) (r : ℤ)
    → ¬ Listed name (dirs lo)
    → IsHome dirs name (lo + 1) hi r
    → IsHome dirs name lo hi r
IsHome-later dirs name lo hi (pos i) no_entry (a, b, c, d) = (omega arith, b, c, none_before)
  where
    none_before : (j : ℕ) → lo ≤ j → j < i → ¬ Listed name (dirs j)
    none_before j p q l = elim (ℕ_discrete lo j) [
      | yes e ↦ no_entry (rw e l)
      | no ne ↦ d j (omega arith) q l
    ]
IsHome-later dirs name lo hi (negsuc k) no_entry (e, d) = (e, none_before)
  where
    none_before : (j : ℕ) → lo ≤ j → j < hi → ¬ Listed name (dirs j)
    none_before j p q l = elim (ℕ_discrete lo j) [
      | yes e' ↦ no_entry (rw e' l)
      | no ne ↦ d j (omega arith) q l
    ]

module _ (os : Os) (dirs : ℕ → List TextBytes) where
  find_node-IsHome :
      (n i hi : ℕ) (name : TextBytes)
      → i + n ≡ hi
      → hi ≤ 2 ^ 31
      → ((j : ℕ) → j < hi → os.opendir (path_of j) ≡ some (dirs j))
      → Returns (find_node os name n i) (IsHome dirs name i hi)
  unfolding find_node
  find_node-IsHome zero i hi name e small present = (refl, λ j p q. absurd (omega arith))
  find_node-IsHome (suc n) i hi name e small present =
      rw (node_path-ok i (omega arith), present i (omega arith))
        (elim (Bool-cases (has_entry name (dirs i))) [
          | inl here ↦ rw here (
            omega arith,
            omega arith,
            has_entry→Listed name (dirs i) here,
            λ j p q. absurd (omega arith),
          )
          | inr gone ↦ rw gone (
              Returns_mono (find_node os name n (i + 1))
                (λ r.
                  IsHome-later dirs name i hi r
                    (λ l. ground (arith, Listed→has_entry name (dirs i) l)))
                (find_node-IsHome n (i + 1) hi name (omega arith) small present))
        ])

cpu_name-ok : (cpu : ℕ) → cpu < 1000 → cpu_name cpu ≡ ok (name_of cpu)
unfolding cpu_name name_of
cpu_name-ok cpu h =
    let short : length (sprintf_i (pos cpu)) ≤ 3 = length-sprintf_i_pos 2 cpu (omega arith) in
    rw (
      strcpy-ok 7 (codes "cpu") (omega arith),
      strcat-ok 7 (codes "cpu") (sprintf_i (pos cpu)) (omega arith),
      strcat-ok 7 (codes "cpu" ++ sprintf_i (pos cpu)) [] (rw length-append (omega arith)),
      append-nil (sprintf_i (pos cpu)),
    )

module _ (os : Os) (dirs : ℕ → List TextBytes) where
  -- Where all eight node directories exist, and for a CPU number of at most three digits,
  -- `get_nodeidcpu` returns the first node that lists the CPU, and -1 if none does.
  pub get_nodeidcpu-IsHome :
      (cpu : ℕ)
      → cpu < 1000
      → ((j : ℕ) → j < 8 → os.opendir (path_of j) ≡ some (dirs j))
      → Returns (get_nodeidcpu os cpu) (IsHome dirs (name_of cpu) 0 8)
  unfolding get_nodeidcpu
  get_nodeidcpu-IsHome cpu h present =
      rw (cpu_name-ok cpu h)
        (find_node-IsHome os dirs 8 0 8 (name_of cpu) (omega arith) (omega arith) present)
