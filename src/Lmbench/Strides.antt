-- ===== src/Lmbench/Strides.antt =====
-- lmbench3/src/lib_mem.c: the circular list of pointers that the measured loads follow.
pub mod Ring
use numafac.Prelude.{
  ℕ, zero, suc, ◌+◌, ◌-◌, Bool, true, false, ◌&&◌, Option, none, some, ltb, ◌==◌, if◌then◌else◌,
  Run, ok, out_of_fuel, ◌>>=◌, ◌>>◌,
}

-- The pointers that can be read from memory, by their addresses: none where no pointer was stored,
-- or where a part of its bytes was overwritten.
abbrev pub Memory : Type 0
Memory = ℕ → Option ℕ

-- *(char **)a = v. A pointer has 8 bytes, so that the store destroys any other one that begins less
-- than 8 bytes before it or behind.
unfoldable pub poke : Memory → ℕ → ℕ → Memory
poke memory a v x =
    if x == a then some v else if ltb x (a + 8) && ltb a (x + 8) then none else memory x

-- The loop of stride_initialize from `i` on, and the store behind it.
unfoldable pub stride_loop : ℕ → ℕ → ℕ → ℕ → ℕ → Memory → Run Memory
stride_loop addr range stride zero i memory = out_of_fuel
stride_loop addr range stride (suc fuel) i memory = elim (ltb i range) [
  | true ↦
      stride_loop addr range stride fuel (i + stride) (poke memory (addr + (i - stride)) (addr + i))
  | false ↦ ok (poke memory (addr + (i - stride)) addr)
]

-- stride_initialize behind base_initialize, at the aligned address that this left: the memory, and
-- the first pointer. Each round adds the stride to `i`, so that as many rounds as bytes are enough.
unfoldable pub stride_initialize : ℕ → ℕ → ℕ → Memory → Run (Memory × ℕ)
stride_initialize addr range stride memory = do
  memory ← stride_loop addr range stride (range + 1) stride memory
  ok (memory, addr)
