-- ===== src/Topology/Cpus/Sockets.antt =====
-- The CPUs of a socket, and the sockets of a node.
use numafac.Os.{Os}
use numafac.Topology.Counts.{
  na_get_cpussockets, na_get_maxcpus, na_get_cpusnode, na_get_sockets_node, na_get_socket_cpu,
}
use numafac.Topology.Caches.{na_get_cache_cores, na_get_cache_share_cores}
use numafac.Topology.Cpus.{
  find_socket, collect_sockets, sockets_of, na_get_cpusidnode, na_get_sockets_id_node,
  cores_of_socket, copy_siblings, with_siblings, na_get_cpusidsocket,
}
use numafac.Prelude.{
  ℕ, zero, suc, ◌+◌, ◌-◌, ◌*◌, ◌<◌, min, ◌≡◌, refl, sym, ap, ◌∙◌, subst, ◌≢◌, true, false, none, [],
  ◌∷◌, arith, length, ℤ, pos, negsuc, pos_part, eqb_ℤ, eqb_ℤ_refl, Fault, out_of_bounds, ok, fault,
  Array, malloc, load, store, store-out_of_bounds, filled, store-filled, load-filled_at, eqb_ℤ-pos,
  first_returns, store-eq-ok,
}

-- The inner loop writes a cell for each round, from `k` on.
copy_siblings-room :
    (n j k : ℕ) (s_cores cores_ids : Array ℤ) (r : Array ℤ × ℕ)
    → copy_siblings n j k s_cores cores_ids ≡ ok r
    → (length (r.0) ≡ length cores_ids) × (r.1 ≡ k + n)
unfolding copy_siblings
copy_siblings-room zero j k s_cores cores_ids (a, k') h = (cc, omega (arith, same))
  where
    same : k ≡ k'
    same = cc
copy_siblings-room (suc n) j k s_cores cores_ids r h =
    let (s, g, loaded) = first_returns _ (load s_cores j) (sym h) in
    let (b, f, stored) = first_returns _ (store cores_ids k s) (sym g) in
    let inside = store-eq-ok cores_ids k s b stored in
    let rest = copy_siblings-room n (j + 1) (k + 1) s_cores b r f in
    (rest.0 ∙ inside.1, omega (arith, rest.1))

-- A round of the outer loop that returns.
with_siblings-round :
    (os : Os) (siblings n i k : ℕ) (tcores_ids cores_ids r : Array ℤ)
    → with_siblings os siblings (suc n) i k tcores_ids cores_ids ≡ ok r
    → (k < length cores_ids)
      × (next : Array ℤ) × (length next ≡ length cores_ids)
      × (with_siblings os siblings n (i + 1) (k + 1 + siblings) tcores_ids next ≡ ok r)
unfolding with_siblings
with_siblings-round os siblings n i k tcores_ids cores_ids r h =
    let (core, f1, loaded) = first_returns _ (load tcores_ids i) (sym h) in
    let (s_cores, f2, shared) = first_returns _ (na_get_cache_share_cores os core) (sym f1) in
    let (b, f3, stored) = first_returns _ (store cores_ids k core) (sym f2) in
    let (c, f4, copied) = first_returns _ (copy_siblings siblings 0 (k + 1) s_cores b) (sym f3) in
    let inside = store-eq-ok cores_ids k core b stored in
    let kept = copy_siblings-room siblings 0 (k + 1) s_cores b c copied in
    (
      inside.0,
      c.0,
      kept.0 ∙ inside.1,
      subst (λ j. with_siblings os siblings n (i + 1) j tcores_ids (c.0) ≡ ok r) (kept.1) f4,
    )

-- If the outer loop returns, then it had a cell for each core and for the siblings of all but the
-- last.
with_siblings-room :
    (os : Os) (siblings n i k : ℕ) (tcores_ids cores_ids r : Array ℤ)
    → with_siblings os siblings (suc n) i k tcores_ids cores_ids ≡ ok r
    → k + n * (siblings + 1) < length cores_ids
with_siblings-room os siblings zero i k tcores_ids cores_ids r h =
    omega (arith, (with_siblings-round os siblings zero i k tcores_ids cores_ids r h).0)
with_siblings-room os siblings (suc n) i k tcores_ids cores_ids r h =
    let (inside, next, same, rest) =
      with_siblings-round os siblings (suc n) i k tcores_ids cores_ids r h in
    let behind =
      with_siblings-room os siblings n (i + 1) (k + 1 + siblings) tcores_ids next r rest in
    grind arith

-- Where two or more cores share a cache, na_get_cpusidsocket never returns an array: its array
-- has a cell for each of the two cores of a socket, and none for their siblings.
pub na_get_cpusidsocket-no_return :
    (os : Os) (socket : ℤ) (cores : ℕ) (r : Array ℤ)
    → na_get_cache_cores os ≡ ok (pos (suc (suc cores)))
    → na_get_cpusidsocket os socket ≢ ok r
unfolding na_get_cpusidsocket na_get_maxcpus na_get_cpussockets
na_get_cpusidsocket-no_return os socket cores r h e =
    let (shared, f1, counted) = first_returns _ (na_get_cache_cores os) (sym e) in
    let (tcores, f2, listed) =
      first_returns _ (cores_of_socket os socket 16 0 0 none (malloc 2)) (sym f1) in
    let same : shared ≡ pos (suc (suc cores)) = cc in
    let room = with_siblings-room os (min 2 (pos_part shared - 1)) 1 0 0 tcores (malloc 2) r f2 in
    omega (arith, room, ap pos_part same)

-- A search that ends in the first cell.
find_socket-one : (socket s : ℤ) → find_socket socket 1 0 (filled (s ∷ [])) ≡ ok (eqb_ℤ socket s)
unfolding find_socket load
find_socket-one socket s = ground arith

-- A socket that is listed already, a new one, and one that there is no cell for.
module _ (os : Os) (n i k : ℕ) (cpu socket : ℤ) (cpus ids : Array ℤ) where
  collect_sockets-known :
      load cpus i ≡ ok cpu
      → na_get_socket_cpu os cpu ≡ ok socket
      → find_socket socket na_get_sockets_node 0 ids ≡ ok true
      → collect_sockets os (suc n) i k cpus ids ≡ collect_sockets os n (i + 1) k cpus ids
  unfolding collect_sockets
  collect_sockets-known h p f = rw (h, p, f) refl

  collect_sockets-new :
      (ids' : Array ℤ)
      → load cpus i ≡ ok cpu
      → na_get_socket_cpu os cpu ≡ ok socket
      → find_socket socket na_get_sockets_node 0 ids ≡ ok false
      → store ids k socket ≡ ok ids'
      → collect_sockets os (suc n) i k cpus ids ≡ collect_sockets os n (i + 1) (k + 1) cpus ids'
  unfolding collect_sockets
  collect_sockets-new ids' h p f g = rw (h, p, f, g) refl

  collect_sockets-over :
      (e : Fault)
      → load cpus i ≡ ok cpu
      → na_get_socket_cpu os cpu ≡ ok socket
      → find_socket socket na_get_sockets_node 0 ids ≡ ok false
      → store ids k socket ≡ fault e
      → collect_sockets os (suc n) i k cpus ids ≡ fault e
  unfolding collect_sockets
  collect_sockets-over e h p f g = rw (h, p, f, g) refl

-- On a machine with two CPUs and one socket to a node: where both CPUs of the node are of the same
-- socket, na_get_socketsId_node returns this socket, and where they are of different sockets, it
-- writes past the end of its array.
pub na_get_sockets_id_node_lem :
    (os : Os) (fuel : ℕ) (node a b : ℤ) (m n : ℕ)
    → na_get_cpusidnode os fuel node ≡ ok (filled (a ∷ b ∷ []))
    → na_get_socket_cpu os a ≡ ok (pos m)
    → na_get_socket_cpu os b ≡ ok (pos n)
    → (m ≡ n → na_get_sockets_id_node os fuel node ≡ ok (filled (pos m ∷ [])))
      × (m ≢ n → na_get_sockets_id_node os fuel node ≡ fault out_of_bounds)
unfolding na_get_sockets_id_node sockets_of na_get_cpusnode na_get_sockets_node
na_get_sockets_id_node_lem os fuel node a b m n h p q = (
  λ e. rw h (
      first
      ∙ collect_sockets-known os 0 1 1 b (pos n) cpus (filled (pos m ∷ [])) at_1 q
          (find_socket-one (pos n) (pos m) ∙ ap ok (rw e (eqb_ℤ_refl (pos n))))
      ∙ unfold collect_sockets in refl),
  λ ne. rw h (
      first
      ∙ collect_sockets-over os 0 1 1 b (pos n) cpus (filled (pos m ∷ [])) out_of_bounds at_1 q
          (find_socket-one (pos n) (pos m) ∙ ap ok (eqb_ℤ-pos n m ∙ ground arith))
          (store-out_of_bounds (filled (pos m ∷ [])) 1 (pos n) (omega arith))),
)
  where
    cpus : Array ℤ
    cpus = filled (a ∷ b ∷ [])

    at_1 : load (filled (a ∷ b ∷ [])) 1 ≡ ok b
    at_1 = load-filled_at b (a ∷ []) [] 1 refl

    first :
        collect_sockets os 2 0 0 (filled (a ∷ b ∷ [])) (filled (negsuc 0 ∷ []))
        ≡ collect_sockets os 1 1 1 (filled (a ∷ b ∷ [])) (filled (pos m ∷ []))
    first =
        collect_sockets-new os 1 0 0 a (pos m) (filled (a ∷ b ∷ [])) (filled (negsuc 0 ∷ []))
          (filled (pos m ∷ [])) (load-filled_at a [] (b ∷ []) 0 refl) p
          (find_socket-one (pos m) (negsuc 0) ∙ ap ok (unfold eqb_ℤ in ground arith))
          (store-filled (negsuc 0) (pos m) [] [] 0 refl)
