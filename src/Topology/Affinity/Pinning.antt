-- ===== src/Topology/Affinity/Pinning.antt =====
-- `na_get_core` returns the core that `na_set_core` was given.
use numafac.Topology.Affinity.{
  Mask, cpu_set, Kernel, first_set, core_of, set_result, na_set_core, na_get_core,
}
use numafac.Prelude.{
  ℕ, zero, suc, ◌+◌, ◌≤◌, ◌<◌, ◌≡◌, refl, ◌≢◌, inl, inr, Bool, true, false, ◌&&◌, some, arith,
  ℕ_discrete, Option-cases, set, ℤ, pos, negsuc, ok,
}

-- What the manual page of `sched_setaffinity` states: a process may afterwards run on the CPUs of
-- the mask that are on line, and a mask without such a CPU is an error.
pub record Pins (k : Kernel) (online : ℕ → Bool) : Type 0 where
  pub set_get :
      (s s' : k.State) (id : ℤ) (m : Mask)
      → k.sched_setaffinity s id m ≡ some s'
      → k.sched_getaffinity s' id ≡ some (λ i. m i && online i)
  pub some_cpu :
      (s s' : k.State) (id : ℤ) (m : Mask)
      → k.sched_setaffinity s id m ≡ some s'
      → (i : ℕ) × ((m i && online i) ≡ true)

-- The only bit of a mask is the one that the search finds.
first_set-only :
    (n i c : ℕ) (mask : Mask)
    → i ≤ c
    → c < i + n
    → mask c ≡ true
    → ((j : ℕ) → j ≢ c → mask j ≡ false)
    → first_set n i mask ≡ ok (pos c)
unfolding first_set
first_set-only zero i c mask h h' at_c other = absurd (omega arith)
first_set-only (suc n) i c mask h h' at_c other = elim (ℕ_discrete i c) [
  | yes e ↦ rw (e, at_c)
  | no ne ↦ rw (other i ne) (first_set-only n (i + 1) c mask (omega arith) (omega arith) at_c other)
]

-- The mask of one core holds no other.
online_core :
    (c i : ℕ) (online : ℕ → Bool) → (cpu_set (pos c) i && online i) ≡ true → online c ≡ true
unfolding cpu_set
online_core c i online h = elim (ℕ_discrete i c) [
  | yes e ↦ let h' = rw e at h in ground (arith, h')
  | no ne ↦ ground (arith, ne)
]

module _ (k : Kernel) (online : ℕ → Bool) (pins : Pins k online) where
  open k use {State, sched_setaffinity, sched_getaffinity}

  pinned :
      (s s' : State) (id : ℤ) (c : ℕ)
      → c < 16
      → sched_setaffinity s id (cpu_set (pos c)) ≡ some s'
      → na_get_core k s' id ≡ ok (pos c)
  unfolding na_get_core core_of cpu_set
  pinned s s' id c h e =
      let (i, set) = pins.some_cpu s s' id (cpu_set (pos c)) e in
      rw (pins.set_get s s' id (cpu_set (pos c)) e) (
        first_set-only 16 0 c (λ j. cpu_set (pos c) j && online j) (omega arith) (omega arith)
          (at_c (online_core c i online set)) (λ j ne. ground (arith, ne)))
    where
      at_c : online c ≡ true → (cpu_set (pos c) c && online c) ≡ true
      at_c on = ground (arith, on)

  -- For one of the 16 cores: if `na_set_core` returns 0, then `na_get_core` of the same process
  -- returns that core; if it returns anything else, that is -1 and nothing has changed.
  pub na_get_core-na_set_core :
      (s : State) (id : ℤ) (c : ℕ)
      → c < 16
      → ((na_set_core k s id (pos c)).1 ≡ pos 0
          → na_get_core k (na_set_core k s id (pos c)).0 id ≡ ok (pos c))
        × ((na_set_core k s id (pos c)).1 ≢ pos 0 → na_set_core k s id (pos c) ≡ (s, negsuc 0))
  unfolding na_set_core set_result
  na_get_core-na_set_core s id c h =
      elim (Option-cases (sched_setaffinity s id (cpu_set (pos c)))) [
        | inl e ↦ rw e (λ z. cc, λ z. refl)
        | inr (s', e) ↦ rw e (λ z. pinned s s' id c h e, λ z. absurd (z refl))
      ]
