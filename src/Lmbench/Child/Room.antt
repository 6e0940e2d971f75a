-- ===== src/Lmbench/Child/Room.antt =====
-- The room that the results of a child have for what it has yet to measure.
use numafac.Lmbench.Results.{
  Measure, Results, insert_measure, insertsort, insertinit, sizeof_result,
}
use numafac.Lmbench.Results.Insertion.{inserted, Holds, insert_measure-inserted, length-inserted}
use numafac.Lmbench.Child.{
  Doubles, Phase, warmup, timing_interval, cooldown, Child, benchmp_child, timed, keep_result,
  keep_if_enough, adjust,
}
use numafac.Prelude.{
  ℕ, zero, suc, ◌+◌, ◌-◌, ◌≤◌, ◌<◌, ◌≡◌, refl, subst, inl, inr, Bool, true, false, ◌&&◌, ◌||◌, List,
  [], arith, ltb, ◌==◌, if◌then◌else◌, Bool-cases, length, ℤ, pos, negsuc, ltb_ℤ, Returns,
  Returns_mono, Returns-bind, if_holds,
}

-- The results after which a child stops.
abbrev pub goal : ℤ → ℕ
goal (pos zero) = 1
goal (pos (suc n)) = suc n
goal (negsuc n) = 1

-- What is left to measure has room, and no more was measured than was asked for.
abbrev pub RoomFor : Phase → ℤ → ℕ → ℕ → Type 0
RoomFor warmup repetitions i room = (i < goal repetitions) × (goal repetitions ≤ i + room)
RoomFor timing_interval repetitions i room = (i < goal repetitions) × (goal repetitions ≤ i + room)
RoomFor cooldown repetitions i room = i ≤ goal repetitions

pub goal-fits : (rep : ℤ) → (0 < goal rep) × (goal rep ≤ 0 + sizeof_result rep)
unfolding sizeof_result
goal-fits (pos zero) = ground arith
goal-fits (pos (suc n)) = ground arith
goal-fits (negsuc n) = ground arith

-- A child that goes on has not measured all.
pub goal-more : (i : ℕ) (rep : ℤ) → ltb_ℤ (pos (i + 1)) rep ≡ true → i + 1 < goal rep
goal-more i (pos zero) q = ground arith
goal-more i (pos (suc n)) q = ground arith
goal-more i (negsuc n) q = ground arith

-- One result more: then either the child has all, or it still has room.
goal-next :
    (i room : ℕ) (rep : ℤ) (p : Phase)
    → i < goal rep
    → goal rep ≤ i + suc room
    → p ≡ timing_interval
    → RoomFor (if ltb_ℤ (pos (i + 1)) rep then p else cooldown) rep (i + 1) room
goal-next i room rep p h k e = rw e (elim (Bool-cases (ltb_ℤ (pos (i + 1)) rep)) [
  | inl more ↦ rw more (goal-more i rep more, omega arith)
  | inr all ↦ rw all (omega (arith, h))
])

module _ {D : Type 0} (dbl : Doubles D) where
  pub timed-phase : (result : D) (c : Child) → (timed dbl result c).phase ≡ c.phase
  unfolding timed
  timed-phase result c =
      if_holds (λ (d : Child). d.phase ≡ c.phase) (c.need_warmup) (λ _. refl) (λ _. refl)

module _ {D : Type 0} (dbl : Doubles D) (repetitions : ℤ) where
  -- Of a child that was asked for so many results.
  pub record HasRoom (c : Child) : Type 0 where
    pub list : List Measure
    pub room : ℕ
    pub held : Holds dbl.double_above (c.r) list room
    pub few : length list ≤ c.i
    pub asked : c.repetitions ≡ repetitions
    pub fits : RoomFor (c.phase) (c.repetitions) (c.i) room

  -- The state of a child before benchmp_interval has room for all that it will measure.
  pub benchmp_child-HasRoom :
      (n enough iterations parallel : ℕ)
      → HasRoom (benchmp_child n enough iterations parallel repetitions)
  unfolding benchmp_child sizeof_result insertinit
  benchmp_child-HasRoom n enough iterations parallel = record {
    list = [];
    room = sizeof_result repetitions;
    held = record { counted = refl; held = refl };
    few = omega arith;
    asked = refl;
    fits = goal-fits repetitions;
  }

  -- insertsort where there is room for one more.
  insertsort-Holds :
      (u n : ℕ) (r : Results) (xs : List Measure) (room : ℕ)
      → Holds dbl.double_above r xs (suc room)
      → Returns (insertsort dbl.double_above u n r) (λ r'.
        (ys : List Measure) × (k : ℕ) × Holds dbl.double_above r' ys k
        × (room ≤ k)
        × (length ys ≤ suc (length xs)))
  unfolding insertsort
  insertsort-Holds u n r xs room h = elim (Bool-cases (u == 0)) [
    | inl e ↦ rw e (xs, suc room, h, omega arith, omega arith)
    | inr e ↦ rw e (
        Returns_mono (insert_measure dbl.double_above (u, n) r)
          (λ r' k. (
            inserted dbl.double_above (u, n) xs,
            room,
            k,
            omega arith,
            omega (arith, length-inserted dbl.double_above (u, n) xs),
          ))
          (insert_measure-inserted dbl.double_above (u, n) r xs room h))
  ]

  -- Fewer free cells are asked for than there are.
  RoomFor-mono :
      (p : Phase) (rep : ℤ) (i room k : ℕ) → room ≤ k → RoomFor p rep i room → RoomFor p rep i k
  RoomFor-mono warmup rep i room k h f = (f.0, omega (arith, f.1))
  RoomFor-mono timing_interval rep i room k h f = (f.0, omega (arith, f.1))
  RoomFor-mono cooldown rep i room k h f = f

  keep_result-HasRoom :
      (c : Child) → HasRoom c → c.phase ≡ timing_interval → Returns (keep_result dbl c) HasRoom
  unfolding keep_result
  keep_result-HasRoom c h e =
      let fits : RoomFor timing_interval (c.repetitions) (c.i) (h.room) = rw e at (h.fits) in
      let one_more : h.room ≡ suc (h.room - 1) = omega (arith, fits) in
      Returns-bind _ HasRoom (insertsort dbl.double_above (c.measured.0) (c.measured.1) (c.r)) _
        (insertsort-Holds (c.measured.0) (c.measured.1) (c.r) (h.list) (h.room - 1)
          (subst (Holds dbl.double_above (c.r) (h.list)) one_more (h.held)))
        (λ r' (ys, k, held, enough, grows). record {
          list = ys;
          room = k;
          held = held;
          few = omega (arith, grows, h.few);
          asked = h.asked;
          fits = RoomFor-mono _ (c.repetitions) (c.i + 1) (h.room - 1) k enough (
              goal-next (c.i) (h.room - 1) (c.repetitions) (c.phase) (fits.0)
                (omega (arith, fits.1)) e);
        })

  pub keep_if_enough-HasRoom :
      (result : D) (c : Child)
      → HasRoom c
      → c.phase ≡ timing_interval
      → Returns (keep_if_enough dbl result c) HasRoom
  unfolding keep_if_enough
  keep_if_enough-HasRoom result c h e =
      elim (Bool-cases (ltb 1 (c.parallel) || dbl.above_95 result (c.enough))) [
        | inl t ↦ rw t (keep_result-HasRoom c h e)
        | inr t ↦ rw t h
      ]

  RoomFor-cooldown :
      (b : Bool) (p : Phase) (rep : ℤ) (i room : ℕ)
      → RoomFor p rep i room
      → RoomFor (if b then cooldown else p) rep i room
  RoomFor-cooldown true warmup rep i room f = omega (arith, f.0)
  RoomFor-cooldown true timing_interval rep i room f = omega (arith, f.0)
  RoomFor-cooldown true cooldown rep i room f = f
  RoomFor-cooldown false p rep i room f = f

  pub adjust-HasRoom : (result : D) (c : Child) → HasRoom c → HasRoom (adjust dbl result c)
  unfolding adjust
  adjust-HasRoom result c h =
      if_holds HasRoom (c.parallel == 1 && dbl.outside result (c.enough))
        (λ _.
          if_holds HasRoom (dbl.above_150 result)
            (λ _. record {
              list = h.list;
              room = h.room;
              held = h.held;
              few = h.few;
              asked = h.asked;
              fits = h.fits;
            })
            (λ _. record {
              list = h.list;
              room = h.room;
              held = h.held;
              few = h.few;
              asked = h.asked;
              fits = RoomFor-cooldown _ (c.phase) (c.repetitions) (c.i) (h.room) (h.fits);
            }))
        (λ _. h)
