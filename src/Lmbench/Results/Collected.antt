-- ===== src/Lmbench/Results/Collected.antt =====
-- What is left of the measures once all are inserted: the same ones, and the least of them last.
use mathlib.Core.List.{
  Mem, Perm, perm_middle, mem-cons, mem-cons_self, not-mem-nil, mem-cons_of_mem,
}
use mathlib.Core.List.Perm
use mathlib.Core.Logic.Or
use numafac.Lmbench.Results.{
  Measure, Results, insert_measure, insertsort, insert_all, save_minimum, insertinit,
}
use numafac.Lmbench.Results.Insertion.{
  before, behind, inserted, before-behind, Holds, insert_measure-inserted,
}
use numafac.Prelude.{
  ℕ, zero, suc, ◌+◌, ◌-◌, ◌≤◌, ◌≡◌, refl, subst, inl, inr, Bool, true, false, List, [], ◌∷◌, ◌++◌,
  append-nil, arith, ◌==◌, if◌then◌else◌, Bool-cases, length, ◌>>=◌, Returns, Array, malloc, load,
  filled, Returns_mono, Returns-bind,
}

-- The measures with a time that is not 0.
abbrev pub nonzero : List Measure → List Measure
nonzero [] = []
nonzero ((u, n) ∷ ms) = if u == 0 then nonzero ms else (u, n) ∷ nonzero ms

-- What the comparison of two quotients of numbers in double arithmetic obeys.
pub record IsStrict (above : Measure → Measure → Bool) : Type 0 where
  pub asymmetric : (a b : Measure) → above a b ≡ true → above b a ≡ false
  pub transitive : (a b c : Measure) → above a b ≡ false → above b c ≡ false → above a c ≡ false

module _ (above : Measure → Measure → Bool) (strict : IsStrict above) where
  -- No element is above the one in front of it.
  abbrev IsDescending : List Measure → Type 0
  IsDescending [] = Unit {0}
  IsDescending (x ∷ []) = Unit {0}
  IsDescending (x ∷ y ∷ zs) = (above y x ≡ false) × IsDescending (y ∷ zs)

  inserted-IsDescending :
      (m : Measure) (xs : List Measure) → IsDescending xs → IsDescending (inserted above m xs)
  inserted-IsDescending m [] d = tt
  inserted-IsDescending m (x ∷ []) d = elim (Bool-cases (above m x)) [
    | inl e ↦ rw e (strict.asymmetric m x e, tt)
    | inr e ↦ rw e (e, tt)
  ]
  inserted-IsDescending m (x ∷ y ∷ xs) d = elim (Bool-cases (above m x)) [
    | inl e ↦ rw e (strict.asymmetric m x e, d)
    | inr e ↦
        let rest = inserted-IsDescending m (y ∷ xs) d.1 in
        rw e (elim (Bool-cases (above m y)) [
          | inl f ↦ rw f (e, rw f at rest)
          | inr f ↦ rw f (d.0, rw f at rest)
        ])
  ]

  inserted-perm : (m : Measure) (xs : List Measure) → Perm (inserted above m xs) (m ∷ xs)
  inserted-perm m xs = Perm.trans (perm_middle (before above m xs) (behind above m xs)) (
      Perm.cons' refl (
        subst (λ l. Perm (before above m xs ++ behind above m xs) l) (before-behind above m xs)
          (Perm.refl _)))

  -- The results hold a descending list of these measures.
  pub record Collects (r : Results) (ms : List Measure) (room : ℕ) : Type 0 where
    pub list : List Measure
    pub held : Holds above r list room
    pub descending : IsDescending list
    pub same : Perm list ms

  pub Collects-perm :
      {r : Results} {ms ns : List Measure} {room : ℕ}
      → Perm ms ns
      → Collects r ms room
      → Collects r ns room
  Collects-perm p c = record {
    list = c.list;
    held = c.held;
    descending = c.descending;
    same = Perm.trans (c.same) p;
  }

  insert_measure-Collects :
      (m : Measure) (r : Results) (ms : List Measure) (room : ℕ)
      → Collects r ms (suc room)
      → Returns (insert_measure above m r) (λ r'. Collects r' (m ∷ ms) room)
  insert_measure-Collects m r ms room c =
      Returns_mono (insert_measure above m r)
        (λ r' h. record {
          list = inserted above m (c.list);
          held = h;
          descending = inserted-IsDescending m (c.list) (c.descending);
          same = Perm.trans (inserted-perm m (c.list)) (Perm.cons m (c.same));
        })
        (insert_measure-inserted above m r (c.list) room (c.held))

  -- The results hold these measures, with some room.
  abbrev pub CollectsSome : List Measure → Results → Type 0
  CollectsSome ms r = (room : ℕ) × Collects r ms room

  -- At least so much room.
  abbrev pub CollectsWith : ℕ → List Measure → Results → Type 0
  CollectsWith room ms r = (k : ℕ) × Collects r ms k × (room ≤ k)

  pub insert_all-Collects :
      (new : List Measure) (r : Results) (ms : List Measure) (room k : ℕ)
      → Collects r ms k
      → length new + room ≤ k
      → Returns (insert_all above new r) (CollectsWith room (nonzero new ++ ms))
  unfolding insert_all insertsort
  insert_all-Collects [] r ms room k c l = (k, c, omega (arith, l))
  insert_all-Collects ((u, n) ∷ new) r ms room zero c l = let f : ⊥ = omega (arith, l) in elim f [ ]
  insert_all-Collects ((u, n) ∷ new) r ms room (suc k) c l = elim (Bool-cases (u == 0)) [
    | inl e ↦ rw e (insert_all-Collects new r ms room (suc k) c (omega (arith, l)))
    | inr e ↦ rw e (
        Returns-bind (λ r'. Collects r' ((u, n) ∷ ms) k)
          (CollectsWith room ((u, n) ∷ nonzero new ++ ms)) (insert_measure above (u, n) r)
          (insert_all above new) (insert_measure-Collects (u, n) r ms k c)
          (λ r' d.
            Returns_mono (insert_all above new r')
              (λ r'' f. (f.0, Collects-perm (perm_middle (nonzero new) ms) (f.1), f.2))
              (insert_all-Collects new r' ((u, n) ∷ ms) room k d (omega (arith, l)))))
  ]

  above_irreflexive : (m : Measure) → above m m ≡ false
  above_irreflexive m = elim (Bool-cases (above m m)) [
    | inl e ↦ strict.asymmetric m m e
    | inr e ↦ e
  ]

  -- One of the measures, and none takes less time for an iteration.
  abbrev pub IsLeast : Measure → List Measure → Type 0
  IsLeast m ms = Mem m ms × ((y : Measure) → Mem y ms → above m y ≡ false)

  last-IsLeast :
      (x : Measure) (xs : List Measure) (rest : Array Measure)
      → IsDescending (x ∷ xs)
      → Returns (load (filled (x ∷ xs) ++ rest) (length xs)) (λ m. IsLeast m (x ∷ xs))
  unfolding load
  last-IsLeast x [] rest d = (
    mem-cons_self,
    λ y h.
        Or.elim (hlevel) (mem-cons.0 h) (λ e. rw e (above_irreflexive x))
          (λ h'. absurd (not-mem-nil h')),
  )
  last-IsLeast x (y ∷ xs) rest d =
      Returns_mono (load (filled (y ∷ xs) ++ rest) (length xs))
        (λ m h. (
          mem-cons_of_mem x (h.0),
          λ z hz.
              Or.elim (hlevel) (mem-cons.0 hz)
                (λ e. rw e (strict.transitive m y x (h.1 y mem-cons_self) d.0)) (h.1 z),
        ))
        (last-IsLeast y xs rest (d.1))

  -- What save_minimum gives, for these measures.
  abbrev pub IsMinimum : List Measure → Measure → Type 0
  IsMinimum [] m = m ≡ (0, 1)
  IsMinimum (x ∷ xs) m = IsLeast m (x ∷ xs)

  IsMinimum-perm :
      (xs ys : List Measure) (m : Measure) → Perm xs ys → IsMinimum xs m → IsMinimum ys m
  IsMinimum-perm [] [] m p h = h
  IsMinimum-perm [] (y ∷ ys) m p h = cc (Perm.nil-eq p)
  IsMinimum-perm (x ∷ xs) [] m p h = cc (Perm.eq-nil p)
  IsMinimum-perm (x ∷ xs) (y ∷ ys) m p h =
      ((Perm.mem_iff p).0 h.0, λ z hz. h.1 z ((Perm.mem_iff p).1 hz))

  save_minimum-list :
      (r : Results) (xs : List Measure) (room : ℕ)
      → Holds above r xs room
      → IsDescending xs
      → Returns (save_minimum r) (IsMinimum xs)
  unfolding save_minimum
  save_minimum-list r [] room h d = rw h.counted refl
  save_minimum-list r (x ∷ xs) room h d =
      let written : (suc (length xs) == 0) ≡ false = ground arith in
      let final : suc (length xs) - 1 ≡ length xs = omega arith in
      rw (h.counted, h.held, written, final) (last-IsLeast x xs (malloc room) d)

  pub save_minimum-Collects :
      (ms : List Measure) (r : Results)
      → CollectsSome ms r
      → Returns (save_minimum r) (IsMinimum ms)
  save_minimum-Collects ms r (room, c) =
      Returns_mono (save_minimum r) (λ m. IsMinimum-perm (c.list) ms m (c.same))
        (save_minimum-list r (c.list) room (c.held) (c.descending))

  -- If the comparison is a strict weak order: any measures, as many as there are cells, inserted
  -- into results that insertinit emptied, leave save_minimum with one of those with a time that is
  -- not 0, of which none takes less time for an iteration; and with time 0 and 1 iteration if there
  -- is none.
  pub save_minimum-insert_all :
      (ms : List Measure) (count room : ℕ)
      → Returns
          (insert_all above ms
              (insertinit record { count = count; cells = malloc (length ms + room) })
            >>= λ r. save_minimum r)
          (IsMinimum (nonzero ms))
  unfolding insertinit
  save_minimum-insert_all ms count room =
      let empty : Results = record { count = 0; cells = malloc (length ms + room) } in
      Returns-bind (CollectsWith room (nonzero ms ++ [])) (IsMinimum (nonzero ms))
        (insert_all above ms empty) (λ r. save_minimum r)
        (insert_all-Collects ms empty [] room (length ms + room)
          record {
            list = [];
            held = record { counted = refl; held = refl };
            descending = tt;
            same = Perm.refl [];
          }
          (omega arith))
        (λ r (k, c, l). rw append-nil at (save_minimum-Collects (nonzero ms ++ []) r (k, c)))
