-- ===== src/Topology/Cpus/Sort.antt =====
-- The insertion sort of `na_get_cpusidnode`, in the array, sorts.
use mathlib.Core.List.{Perm, perm_middle}
use mathlib.Core.List.Perm
use numafac.Topology.Cpus.{shift, sort_ids}
use numafac.Prelude.{
  ℕ, suc, ◌+◌, ◌≡◌, refl, ◌∙◌, inl, inr, true, false, List, [], ◌∷◌, ◌++◌, append-nil, arith,
  if◌then◌else◌, Bool-cases, length, ℤ, ◌≤ℤ◌, ltb_ℤ, ok, Array, load, store, filled, store-filled,
  load-filled_at, onto, onto-append, length-onto,
}

-- `aux` put into a list that descends.
insert_desc : ℤ → List ℤ → List ℤ
insert_desc aux [] = aux ∷ []
insert_desc aux (r ∷ rs) = if ltb_ℤ aux r then r ∷ insert_desc aux rs else aux ∷ r ∷ rs

sorted_desc : List ℤ → List ℤ → List ℤ
sorted_desc rs [] = rs
sorted_desc rs (z ∷ zs) = sorted_desc (insert_desc z rs) zs

-- Each element is at most the next.
abbrev pub IsAscending : List ℤ → Type 0
IsAscending [] = Unit {0}
IsAscending (x ∷ []) = Unit {0}
IsAscending (x ∷ y ∷ zs) = (x ≤ℤ y) × IsAscending (y ∷ zs)

abbrev IsDescending : List ℤ → Type 0
IsDescending [] = Unit {0}
IsDescending (x ∷ []) = Unit {0}
IsDescending (x ∷ y ∷ zs) = (y ≤ℤ x) × IsDescending (y ∷ zs)

insert_desc-IsDescending : (a : ℤ) (rs : List ℤ) → IsDescending rs → IsDescending (insert_desc a rs)
unfolding insert_desc
insert_desc-IsDescending a [] h = tt
insert_desc-IsDescending a (r ∷ []) h = ground arith
insert_desc-IsDescending a (r ∷ s ∷ rs) h = ground (arith, insert_desc-IsDescending a (s ∷ rs) h.1)

sorted_desc-IsDescending : (rs zs : List ℤ) → IsDescending rs → IsDescending (sorted_desc rs zs)
unfolding sorted_desc
sorted_desc-IsDescending rs [] h = h
sorted_desc-IsDescending rs (z ∷ zs) h =
    sorted_desc-IsDescending (insert_desc z rs) zs (insert_desc-IsDescending z rs h)

onto-IsAscending :
    (r : ℤ) (rs zs : List ℤ)
    → IsDescending (r ∷ rs)
    → IsAscending (r ∷ zs)
    → IsAscending (onto (r ∷ rs) zs)
onto-IsAscending r [] zs d a = a
onto-IsAscending r (s ∷ rs) zs d a = onto-IsAscending s rs (r ∷ zs) d.1 (d.0, a)

onto-nil-IsAscending : (rs : List ℤ) → IsDescending rs → IsAscending (onto rs [])
onto-nil-IsAscending [] d = tt
onto-nil-IsAscending (r ∷ rs) d = onto-IsAscending r rs [] d tt

onto-perm : (rs zs : List ℤ) → Perm (onto rs zs) (rs ++ zs)
onto-perm [] zs = Perm.refl zs
onto-perm (r ∷ rs) zs = Perm.trans (onto-perm rs (r ∷ zs)) (perm_middle rs zs)

insert_desc-perm : (a : ℤ) (rs : List ℤ) → Perm (insert_desc a rs) (a ∷ rs)
unfolding insert_desc
insert_desc-perm a [] = Perm.refl _
insert_desc-perm a (r ∷ rs) = elim (Bool-cases (ltb_ℤ a r)) [
  | inl e ↦ rw e (Perm.trans (Perm.cons r (insert_desc-perm a rs)) (Perm.swap a r rs))
  | inr e ↦ rw e (Perm.refl _)
]

sorted_desc-perm : (rs zs : List ℤ) → Perm (sorted_desc rs zs) (rs ++ zs)
unfolding sorted_desc
sorted_desc-perm rs [] = rw append-nil (Perm.refl rs)
sorted_desc-perm rs (z ∷ zs) = Perm.trans (sorted_desc-perm (insert_desc z rs) zs) (
    Perm.trans (Perm.append (insert_desc-perm z rs) (Perm.refl zs)) (Perm.symm (perm_middle rs zs)))

load-onto : (r : ℤ) (rs zs : List ℤ) → load (filled (onto rs (r ∷ zs))) (length rs) ≡ ok r
load-onto r rs zs =
    rw (onto-append rs [] (r ∷ zs))
      (load-filled_at r (onto rs []) zs (length rs) (omega (arith, length-onto rs [])))

store-onto :
    (w v : ℤ) (rs zs : List ℤ)
    → store (filled (onto rs (w ∷ zs))) (length rs) v ≡ ok (filled (onto rs (v ∷ zs)))
store-onto w v rs zs =
    rw (onto-append rs [] (w ∷ zs), onto-append rs [] (v ∷ zs))
      (store-filled w v (onto rs []) zs (length rs) (omega (arith, length-onto rs [])))

shift-move :
    (aux r : ℤ) (j : ℕ) (a b : Array ℤ)
    → load a j ≡ ok r
    → ltb_ℤ aux r ≡ true
    → store a (suc j) r ≡ ok b
    → shift aux (suc j) a ≡ shift aux j b
unfolding shift
shift-move aux r j a b h e q = rw h (ground (arith, e, q))

shift-place :
    (aux r : ℤ) (j : ℕ) (a : Array ℤ)
    → load a j ≡ ok r
    → ltb_ℤ aux r ≡ false
    → shift aux (suc j) a ≡ store a (suc j) aux
unfolding shift
shift-place aux r j a h e = rw h (ground (arith, e))

-- Moving up what is greater makes room at the place of `aux`.
shift-onto :
    (aux w : ℤ) (rs zs : List ℤ)
    → shift aux (length rs) (filled (onto rs (w ∷ zs))) ≡ ok (filled (onto (insert_desc aux rs) zs))
unfolding insert_desc
shift-onto aux w [] zs = unfold shift in store-onto w aux [] zs
shift-onto aux w (r ∷ rs) zs = elim (Bool-cases (ltb_ℤ aux r)) [
  | inl e ↦
      shift-move aux r (length rs) _ _ (load-onto r rs (w ∷ zs)) e (store-onto w r (r ∷ rs) zs)
      ∙ rw e (shift-onto aux r rs (r ∷ zs))
  | inr e ↦
      shift-place aux r (length rs) _ (load-onto r rs (w ∷ zs)) e
      ∙ rw e (store-onto w aux (r ∷ rs) zs)
]

length-insert_desc : (a : ℤ) (rs : List ℤ) → length (insert_desc a rs) ≡ suc (length rs)
unfolding insert_desc
length-insert_desc a [] = refl
length-insert_desc a (r ∷ rs) = ground (arith, length-insert_desc a rs)

sort_ids-onto :
    (rs zs : List ℤ) (i : ℕ)
    → i ≡ length rs
    → sort_ids (length zs) i (filled (onto rs zs)) ≡ ok (filled (onto (sorted_desc rs zs) []))
unfolding sort_ids sorted_desc
sort_ids-onto rs [] i e = refl
sort_ids-onto rs (z ∷ zs) i e =
    rw (e, load-onto z rs zs, shift-onto z z rs zs)
      (sort_ids-onto (insert_desc z rs) zs (length rs + 1) (omega (arith, length-insert_desc z rs)))

-- The two nested loops of the sort, started at the second element, turn a written array into the
-- array of a list that ascends and is a permutation of the former one.
pub sort_ids_lem :
    (x : ℤ) (xs : List ℤ)
    → (ys : List ℤ) × (sort_ids (length xs) 1 (filled (x ∷ xs)) ≡ ok (filled ys))
      × IsAscending ys
      × Perm ys (x ∷ xs)
sort_ids_lem x xs = (
  onto (sorted_desc (x ∷ []) xs) [],
  sort_ids-onto (x ∷ []) xs 1 refl,
  onto-nil-IsAscending (sorted_desc (x ∷ []) xs) (sorted_desc-IsDescending (x ∷ []) xs tt),
  Perm.trans (rw append-nil at (onto-perm (sorted_desc (x ∷ []) xs) []))
      (sorted_desc-perm (x ∷ []) xs),
)
