-- ===== src/Latencies/Costs.antt =====
-- The matrix of latencies between cores, against a description of its entries.
use numafac.Latencies.{entry_by}
use numafac.Latencies.{factor_of}
use numafac.Latencies.{core_row}
use numafac.Latencies.{core_entry}
use numafac.Latencies.{core_factor}
use numafac.Latencies.{core_rows}
use numafac.Os.{Floats}
use numafac.Latencies.{cache, other, Hardware, at_index, node_latency, ancestor_latency}
use numafac.Prelude.{
  ℕ, zero, suc, ◌+◌, ◌-◌, ◌%◌, ◌^◌, ◌<◌, ◌≡◌, refl, sym, ◌∙◌, subst, ◌≢◌, true, false, some, List,
  [], ◌∷◌, map, arith, ◌==◌, get_elem?, ℤ, pos, eqb_ℤ_refl, ok, Array, load, filled, load-filled,
  tabulate, fill-ok, eqb_ℤ-pos,
}

get_elem?-map {ℓ κ} :
    {A : Type ℓ} {B : Type κ} (f : A → B) (xs : List A) (i : ℕ) (x : A)
    → get_elem? xs i ≡ some x
    → get_elem? (map f xs) i ≡ some (f x)
get_elem?-map f [] i x h = cc
get_elem?-map f (y ∷ xs) zero x h = cc
get_elem?-map f (y ∷ xs) (suc i) x h = get_elem?-map f xs i x h

module _ (fl : Floats) (hw : Hardware (fl.F)) (cache_latencies : List (fl.F))
    (nodes : List (List (fl.F))) (node_of : List ℕ) where
  open fl use {F}
  open hw use {Core, core, common_ancestor}

  -- The latency from node m to node n.
  abbrev pub Between : ℕ → ℕ → F → Type 0
  Between m n x = (row : List F) × (get_elem? nodes m ≡ some row) × (get_elem? row n ≡ some x)

  -- The latency from core i to core j: of the first cache, of the innermost cache that they
  -- share, of their node, or between their nodes.
  pub data IsCost (i j : ℕ) (x : F) : Type 0 where
    itself :
        (n : ℕ)
        → get_elem? node_of i ≡ some n
        → i ≡ j
        → get_elem? cache_latencies 0 ≡ some x
        → IsCost i j x
    by_cache :
        (n d : ℕ) (size : ℤ) (c1 c2 : Core)
        → get_elem? node_of i ≡ some n
        → get_elem? node_of j ≡ some n
        → i ≢ j
        → core i ≡ some c1
        → core j ≡ some c2
        → common_ancestor c1 c2 ≡ cache (suc d) size
        → d < 3
        → get_elem? cache_latencies d ≡ some x
        → IsCost i j x
    by_node :
        (n : ℕ) (c1 c2 : Core)
        → get_elem? node_of i ≡ some n
        → get_elem? node_of j ≡ some n
        → i ≢ j
        → core i ≡ some c1
        → core j ≡ some c2
        → common_ancestor c1 c2 ≡ other
        → Between n n x
        → IsCost i j x
    between :
        (m n : ℕ)
        → get_elem? node_of i ≡ some m
        → get_elem? node_of j ≡ some n
        → m ≢ n
        → Between m n x
        → IsCost i j x

  matrix : List (Array F)
  matrix = map filled nodes

  table : Array ℤ
  table = filled (map pos node_of)

  node-load : (i n : ℕ) → get_elem? node_of i ≡ some n → load table i ≡ ok (pos n)
  unfolding table
  node-load i n h = load-filled (map pos node_of) i (get_elem?-map pos node_of i n h)

  node_latency-Between :
      (m n : ℕ) (x : F)
      → Between m n x
      → node_latency fl hw cache_latencies matrix table (pos m) (pos n) ≡ ok x
  unfolding node_latency at_index matrix
  node_latency-Between m n x (row, h, k) =
      rw (get_elem?-map filled nodes m row h, get_elem?-map some row n x k) refl

  ancestor-by_cache :
      (d i : ℕ) (size : ℤ) (x : F)
      → d < 3
      → get_elem? cache_latencies d ≡ some x
      → ancestor_latency fl hw cache_latencies matrix table (cache (suc d) size) i ≡ ok x
  unfolding ancestor_latency
  ancestor-by_cache d i size x h e =
      let index : (suc d + (2 ^ 32 - 1)) % 2 ^ 32 ≡ d = omega arith in rw (index, e) refl

  ne→== : (i j : ℕ) → i ≢ j → (i == j) ≡ false
  ne→== i j h = ground arith

  apart-factor :
      (i j : ℕ) (c1 c2 : Core)
      → i ≢ j
      → core i ≡ some c1
      → core j ≡ some c2
      → core_factor fl hw cache_latencies matrix table i j
        ≡ ancestor_latency fl hw cache_latencies matrix table (common_ancestor c1 c2) i
  unfolding core_factor factor_of
  apart-factor i j c1 c2 h e k = rw (ne→== i j h, e, k) refl

  itself-factor :
      (i j : ℕ) (x : F)
      → i ≡ j
      → get_elem? cache_latencies 0 ≡ some x
      → core_factor fl hw cache_latencies matrix table i j ≡ ok x
  unfolding core_factor factor_of
  itself-factor i j x e h = let same : (i == j) ≡ true = ground arith in rw (same, h) refl

  entry-same_node :
      (i j n : ℕ)
      → get_elem? node_of j ≡ some n
      → core_entry fl hw cache_latencies matrix table i (pos n) j
        ≡ core_factor fl hw cache_latencies matrix table i j
  unfolding core_entry entry_by
  entry-same_node i j n h = rw (node-load j n h, eqb_ℤ_refl (pos n)) refl

  entry-apart :
      (i j m n : ℕ)
      → get_elem? node_of j ≡ some n
      → m ≢ n
      → core_entry fl hw cache_latencies matrix table i (pos m) j
        ≡ node_latency fl hw cache_latencies matrix table (pos m) (pos n)
  unfolding core_entry entry_by
  entry-apart i j m n h d = rw (node-load j n h, eqb_ℤ-pos n m, ne→== n m (λ e. d (sym e))) refl

  home-ancestor :
      (i n : ℕ) (x : F)
      → get_elem? node_of i ≡ some n
      → Between n n x
      → ancestor_latency fl hw cache_latencies matrix table other i ≡ ok x
  unfolding ancestor_latency
  home-ancestor i n x h b = rw (node-load i n h) (node_latency-Between n n x b)

  core_entry-IsCost :
      (i j m : ℕ) (x : F)
      → get_elem? node_of i ≡ some m
      → IsCost i j x
      → core_entry fl hw cache_latencies matrix table i (pos m) j ≡ ok x
  core_entry-IsCost i j m x h (itself n hi e k) =
      entry-same_node i j m (subst (λ l. get_elem? node_of l ≡ some m) e h)
      ∙ itself-factor i j x e k
  core_entry-IsCost i j m x h (by_cache n d size c1 c2 hi hj ne e1 e2 anc below k) =
      let same : m ≡ n = cc in
      entry-same_node i j m (rw same hj)
      ∙ apart-factor i j c1 c2 ne e1 e2
      ∙ rw anc (ancestor-by_cache d i size x below k)
  core_entry-IsCost i j m x h (by_node n c1 c2 hi hj ne e1 e2 anc b) =
      let same : m ≡ n = cc in
      entry-same_node i j m (rw same hj)
      ∙ apart-factor i j c1 c2 ne e1 e2
      ∙ rw anc (home-ancestor i n x hi b)
  core_entry-IsCost i j m x h (between m' n hi hj ne b) =
      let same : m ≡ m' = cc in rw same (entry-apart i j m' n hj ne ∙ node_latency-Between m' n x b)

  node-IsCost : (i : ℕ) (x : F) → IsCost i i x → (n : ℕ) × (get_elem? node_of i ≡ some n)
  node-IsCost i x (itself n hi e k) = (n, hi)
  node-IsCost i x (by_cache n d size c1 c2 hi hj ne e1 e2 anc below k) = (n, hi)
  node-IsCost i x (by_node n c1 c2 hi hj ne e1 e2 anc b) = (n, hi)
  node-IsCost i x (between m n hi hj ne b) = (m, hi)

  module _ (cost : ℕ → ℕ → F) where
    abbrev pub cost_row : ℕ → ℕ → Array F
    cost_row nb_cores i = filled (tabulate (cost i) 0 nb_cores)

    core_row-IsCost :
        (nb_cores i : ℕ)
        → i < nb_cores
        → ((j : ℕ) → j < nb_cores → IsCost i j (cost i j))
        → core_row fl hw cache_latencies matrix table nb_cores i ≡ ok (cost_row nb_cores i)
    unfolding core_row
    core_row-IsCost nb_cores i below h =
        let (m, hm) = node-IsCost i (cost i i) (h i below) in
        rw (node-load i m hm) (
          fill-ok (core_entry fl hw cache_latencies matrix table i (pos m)) (cost i) nb_cores 0 []
            refl (λ j p. core_entry-IsCost i j m (cost i j) hm (h j (omega arith))))

    -- If every pair of cores has the cost, then the matrix that main computes from written
    -- arrays holds these costs: row i and column j that of the cores i and j.
    pub core_rows-IsCost :
        (nb_cores : ℕ)
        → ((i j : ℕ) → i < nb_cores → j < nb_cores → IsCost i j (cost i j))
        → core_rows fl hw cache_latencies (map filled nodes) (filled (map pos node_of)) nb_cores
          ≡ ok (filled (tabulate (cost_row nb_cores) 0 nb_cores))
    unfolding core_rows matrix table
    core_rows-IsCost nb_cores h =
        fill-ok (core_row fl hw cache_latencies matrix table nb_cores) (cost_row nb_cores) nb_cores
          0 [] refl (λ i p. core_row-IsCost nb_cores i (omega arith) (λ j q. h i j (omega arith) q))
