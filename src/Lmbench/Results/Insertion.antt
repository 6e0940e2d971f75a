-- ===== src/Lmbench/Results/Insertion.antt =====
-- insertsort, in the array, inserts before the first smaller result.
use numafac.Lmbench.Results.{Measure, Results, shift_down, find_place, insert_measure}
use numafac.Lmbench.Results.Shifting.{shift_down-moves, length-filled}
use numafac.Prelude.{
  ℕ, suc, ◌+◌, ◌-◌, ◌≡◌, refl, sym, ap, ◌∙◌, inl, inr, Bool, true, false, some, List, [], ◌∷◌, ◌++◌,
  append_assoc, arith, if◌then◌else◌, Bool-cases, length, length-append, ok, Returns, Array, malloc,
  load, store, filled, load-append, store-append,
}

module _ (above : Measure → Measure → Bool) where
  -- The results in front of the place of `m`, and those behind it.
  abbrev pub before : Measure → List Measure → List Measure
  before m [] = []
  before m (x ∷ xs) = if above m x then [] else x ∷ before m xs

  abbrev pub behind : Measure → List Measure → List Measure
  behind m [] = []
  behind m (x ∷ xs) = if above m x then x ∷ xs else behind m xs

  abbrev pub inserted : Measure → List Measure → List Measure
  inserted m xs = before m xs ++ m ∷ behind m xs

  pub before-behind : (m : Measure) (xs : List Measure) → before m xs ++ behind m xs ≡ xs
  before-behind m [] = refl
  before-behind m (x ∷ xs) = elim (Bool-cases (above m x)) [
    | inl e ↦ rw e refl
    | inr e ↦ rw e (ap (λ l. x ∷ l) (before-behind m xs))
  ]

  find_place-stops :
      (n i : ℕ) (m x : Measure) (v : Array Measure)
      → load v i ≡ ok x
      → above m x ≡ true
      → find_place above (suc n) i m v ≡ ok i
  unfolding find_place
  find_place-stops n i m x v h e = rw h (ground (arith, e))

  find_place-goes_on :
      (n i : ℕ) (m x : Measure) (v : Array Measure)
      → load v i ≡ ok x
      → above m x ≡ false
      → find_place above (suc n) i m v ≡ find_place above n (i + 1) m v
  unfolding find_place
  find_place-goes_on n i m x v h e = rw h (ground (arith, e))

  find_place-before :
      (m : Measure) (xs : List Measure) (done free : Array Measure) (i : ℕ)
      → i ≡ length done
      → find_place above (length xs) i m (done ++ (filled xs ++ free))
        ≡ ok (i + length (before m xs))
  find_place-before m [] done free i e = unfold find_place in ap ok (omega arith)
  find_place-before m (x ∷ xs) done free i e = elim (Bool-cases (above m x)) [
    | inl a ↦
        find_place-stops (length xs) i m x _ (load-append done (filled xs ++ free) i x e) a
        ∙ rw a (ap ok (omega arith))
    | inr a ↦
        find_place-goes_on (length xs) i m x _ (load-append done (filled xs ++ free) i x e) a
        ∙ rw a (
            (simp append_assoc at (
              find_place-before m xs (done ++ some x ∷ []) free (i + 1)
                (rw length-append (omega arith))))
            ∙ ap ok (omega arith))
  ]

module _ (above : Measure → Measure → Bool) where
  length-before :
      (m : Measure) (xs : List Measure)
      → length (before above m xs) + length (behind above m xs) ≡ length xs
  length-before m xs = omega (
    arith,
    length-append (before above m xs) (behind above m xs),
    ap length (before-behind above m xs),
  )

  pub length-inserted :
      (m : Measure) (xs : List Measure) → length (inserted above m xs) ≡ suc (length xs)
  length-inserted m xs =
      omega (arith, length-append (before above m xs) (m ∷ behind above m xs), length-before m xs)

  -- r->N and the written cells are those of the list, with so many cells behind them.
  pub record Holds (r : Results) (xs : List Measure) (room : ℕ) : Type 0 where
    pub counted : r.count ≡ length xs
    pub held : r.cells ≡ filled xs ++ malloc room

  insert_measure-step :
      (m : Measure) (r : Results) (i : ℕ) (v w : Array Measure)
      → find_place above (r.count) 0 m (r.cells) ≡ ok i
      → shift_down (r.count - i) (r.count) (r.cells) ≡ ok v
      → store v i m ≡ ok w
      → insert_measure above m r ≡ ok record { count = r.count + 1; cells = w }
  unfolding insert_measure
  insert_measure-step m r i v w f g h = rw (f, g, h) refl

  -- The cells as those in front of the place, those behind it, and the free ones.
  split_cells :
      (m : Measure) (xs : List Measure) (rest : Array Measure)
      → filled xs ++ rest ≡ filled (before above m xs) ++ (filled (behind above m xs) ++ rest)
  split_cells m xs rest =
      ap (λ l. filled l ++ rest) (sym (before-behind above m xs))
      ∙ filled-append (before above m xs) (behind above m xs) rest
    where
      filled-append :
          (ps zs : List Measure) (l : Array Measure)
          → filled (ps ++ zs) ++ l ≡ filled ps ++ (filled zs ++ l)
      filled-append [] zs l = refl
      filled-append (p ∷ ps) zs l = ap (λ t. some p ∷ t) (filled-append ps zs l)

  join_cells :
      (ps zs : List Measure) (m : Measure) (l : Array Measure)
      → filled ps ++ some m ∷ (filled zs ++ l) ≡ filled (ps ++ m ∷ zs) ++ l
  join_cells [] zs m l = refl
  join_cells (p ∷ ps) zs m l = ap (λ t. some p ∷ t) (join_cells ps zs m l)

  -- Where there is room, insert_measure inserts before the first result that is smaller.
  pub insert_measure-inserted :
      (m : Measure) (r : Results) (xs : List Measure) (room : ℕ)
      → Holds r xs (suc room)
      → Returns (insert_measure above m r) (λ r'. Holds r' (inserted above m xs) room)
  insert_measure-inserted m r xs room h =
      let ps = before above m xs in
      let zs = behind above m xs in
      let cells = h.held ∙ split_cells m xs (malloc (suc room)) in
      let (c, moved) =
        shift_down-moves zs (length xs) (filled ps) (malloc room)
          (omega (arith, length-filled ps, length-before m xs)) in
      rw
        (insert_measure-step m r (length ps) (filled ps ++ c ∷ (filled zs ++ malloc room))
          (filled ps ++ some m ∷ (filled zs ++ malloc room))
          (rw (h.counted, h.held)
            (find_place-before above m xs [] (malloc (suc room)) 0 refl ∙ ap ok (omega arith)))
          (rw (h.counted, cells)
            (ap (λ n. shift_down n (length xs) (filled ps ++ (filled zs ++ malloc (suc room))))
                (rounds m xs)
              ∙ moved))
          (store-append (filled ps) (filled zs ++ malloc room) c (length ps) m
            (sym (length-filled ps))))
        record {
          counted = rw (h.counted, length-append ps (m ∷ zs)) (omega (arith, length-before m xs));
          held = join_cells ps zs m (malloc room);
        }
    where
      rounds :
          (m : Measure) (xs : List Measure)
          → length xs - length (before above m xs) ≡ length (behind above m xs)
      rounds m xs = omega (arith, length-before m xs)
