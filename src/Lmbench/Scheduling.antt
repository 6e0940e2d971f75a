-- ===== src/Lmbench/Scheduling.antt =====
-- lmbench3/src/lib_sched.c: on which processor a benchmark process runs.
use numafac.Prelude.{element}
pub mod Custom
use numafac.Libc.{TextBytes, codes, is_digit, digits_value, same_text, starts_with}
use numafac.Prelude.{
  ℕ, zero, suc, ◌+◌, ◌-◌, ◌*◌, ◌/◌, ◌%◌, ◌^◌, ◌≤◌, ◌<◌, min, ◌≡◌, refl, sym, ap, ◌∙◌, subst,
  fun_ext, ◌≢◌, ◌↔◌, ◌⊎◌, inl, inr, Bool, true, false, not, ◌&&◌, ◌||◌, Option, none, some, List,
  [], ◌∷◌, ◌++◌, map, append-nil, append_assoc, arith, dec_lt, ℕ_discrete, ltb, leb, ◌==◌,
  if◌then◌else◌, ltb→lt, lt→ltb, leb→le, ==_iff, Bool-cases, Option-cases, length, get_elem?, set,
  get_or, take, drop, replicate, length-append, length-set, get_elem?-set_self, get_elem?-set_ne,
  length-replicate, length-map, set-append, get_elem?-append, ℤ, pos, negsuc, pos_part, neg_part,
  ◌+ℤ◌, ◌-ℤ◌, ◌*ℤ◌, ◌≤ℤ◌, ltb_ℤ, eqb_ℤ, eqb_ℤ→eq, eqb_ℤ_refl, negate, ulong, low_word, sub_ℕ, Fault,
  overflow, null_pointer, indeterminate, out_of_bounds, Run, ok, exit, fault, out_of_fuel, ◌>>=◌,
  ◌>>◌, deref, determinate, Returns, Array, malloc, load, store, store-ok, store-out_of_bounds,
  filled, load-filled, fill, tabulate, get_elem?-tabulate, length-tabulate, fill-ok, Returns_mono,
  value_or, Returns-value_or, load-filled_beyond, store-filled, load-filled_at, eqb_ℤ-pos,
}

-- for (i = ...; i > 0; i >>= 1, nbits++), for which `i` rounds are enough.
unfoldable pub bits_of : ℕ → ℕ → ℕ → ℕ
bits_of zero i nbits = nbits
bits_of (suc fuel) i nbits =
    let longer = bits_of fuel (i / 2) (nbits + 1) in if i == 0 then nbits else longer

-- if (v & (1 << i)) r |= w, given that bit of v.
unfoldable pub or_bit : ℕ → ℕ → ℕ → ℕ
or_bit zero w r = r
or_bit (suc b) w r = if r / w % 2 == 0 then r + w else r

-- for (i = 0; i < nbits; i++), from `i` on, with the rounds left.
unfoldable pub reversed : ℕ → ℕ → ℕ → ℕ → ℕ → ℕ
reversed zero i nbits cpu cpu_reverse = cpu_reverse
reversed (suc n) i nbits cpu cpu_reverse =
    reversed n (i + 1) nbits cpu (or_bit (cpu / 2 ^ i % 2) (2 ^ (nbits - i - 1)) cpu_reverse)

-- reverse_bits, at a number of processors.
unfoldable pub reverse_bits : ℕ → ℕ → ℕ
unfolding bits_of reversed
reverse_bits ncpus cpu =
    let nbits = bits_of (ncpus - 1) ((ncpus - 1) / 2) 1 in reversed nbits 0 nbits cpu 0

-- words_initialize of lib_mem.c, at cells that were set to 0.
unfoldable pub words_initialize : ℕ → ℕ → Run (Array ℕ)
unfolding bits_of reversed
words_initialize max scale =
    let nbits = bits_of max (max / 2) 0 in
    fill (λ i. ok (reversed nbits 0 nbits i 0 * scale % 2 ^ 64)) max 0 (malloc max)

-- while (*str && !isdigit(*str)) str++;
unfoldable pub skip_nondigits : TextBytes → TextBytes
skip_nondigits [] = []
skip_nondigits (c ∷ s) = if is_digit c then c ∷ s else skip_nondigits s

-- What stands behind the digits is overwritten and passed over: behind digits that end the text,
-- that is the end of the text itself, and the next character read lies outside.
unfoldable pub behind_number : ℕ → TextBytes → (TextBytes → Run (List ℕ)) → Run (List ℕ)
behind_number n [] next = fault out_of_bounds
behind_number n (c ∷ s) next = do ns ← next s; ok (n ∷ ns)

-- The number at the front of a text without anything else in front, and what `next` makes of the
-- text behind it.
unfoldable pub next_number : TextBytes → (TextBytes → Run (List ℕ)) → Run (List ℕ)
next_number [] next = ok []
next_number (c ∷ s) next = let (n, rest) = digits_value 0 (c ∷ s) in behind_number n rest next

-- The numbers that `custom` finds in its text. A round takes at least a character.
unfoldable pub custom_values : ℕ → TextBytes → Run (List ℕ)
custom_values zero s = out_of_fuel
custom_values (suc fuel) s = next_number (skip_nondigits s) (custom_values fuel)

-- if (nvalues == 0) return 0; return values[cpu % nvalues];
unfoldable pub value_for : List ℕ → ℕ → Run ℕ
value_for [] cpu = ok 0
value_for (v ∷ vs) cpu = element (get_elem? (v ∷ vs) (cpu % length (v ∷ vs)))

-- custom, with the static array `values`, which is NULL before the first call.
unfoldable pub custom : Option (List ℕ) → TextBytes → ℕ → Run (List ℕ × ℕ)
custom (some values) str cpu = do v ← value_for values cpu; ok (values, v)
custom none str cpu = do
  values ← custom_values (suc (length str)) str
  v ← value_for values cpu
  ok (values, v)

-- The letters of a text, in lower case.
unfoldable pub lower : TextBytes → TextBytes
lower s = map (λ c. if leb 65 c && leb c 90 then c + 32 else c) s

-- strcasecmp(sched, name) == 0.
unfoldable pub named : TextBytes → TextBytes → Bool
named sched name = same_text (lower sched) (lower name)

-- strncasecmp(sched, name, strlen(name)) == 0.
unfoldable pub begins : TextBytes → TextBytes → Bool
begins sched name = starts_with (lower name) (lower sched)

-- The processor that handle_scheduler chooses by the value of LMBENCH_SCHED, before it is reduced;
-- none if it pins nothing. For any other value it returns without a result.
unfoldable pub chosen_cpu : Option (List ℕ) → ℕ → Option TextBytes → ℕ → ℕ → ℕ → Run (Option ℕ)
chosen_cpu values ncpus none childno benchproc nbenchprocs = ok none
chosen_cpu values ncpus (some sched) childno benchproc nbenchprocs =
    if named sched (codes "DEFAULT")
    then ok none
    else if named sched (codes "SINGLE")
    then ok (some 0)
    else if named sched (codes "BALANCED")
    then ok (some childno)
    else if named sched (codes "BALANCED_SPREAD")
    then ok (some (reverse_bits ncpus childno))
    else if named sched (codes "UNIQUE")
    then ok (some (childno * (nbenchprocs + 1) + benchproc))
    else if named sched (codes "UNIQUE_SPREAD")
    then ok (some (reverse_bits ncpus (childno * (nbenchprocs + 1) + benchproc)))
    else if begins sched (codes "CUSTOM ")
    then (do (vs, c) ← custom values (drop 6 sched) childno; ok (some c))
    else if begins sched (codes "CUSTOM_UNIQUE ")
    then (do
      (vs, c) ← custom values (drop 13 sched) (childno * (nbenchprocs + 1) + benchproc)
      ok (some c))
    else fault indeterminate

-- return sched_pin(cpu % sched_ncpus());
unfoldable pub pin_chosen : (ℕ → ℤ) → ℕ → Option ℕ → ℤ
pin_chosen sched_pin ncpus none = pos 0
pin_chosen sched_pin ncpus (some cpu) = sched_pin (cpu % ncpus)

unfoldable pub handle_scheduler :
    (ℕ → ℤ) → Option (List ℕ) → ℕ → Option TextBytes → ℕ → ℕ → ℕ → Run ℤ
handle_scheduler sched_pin values ncpus sched childno benchproc nbenchprocs = do
  c ← chosen_cpu values ncpus sched childno benchproc nbenchprocs
  ok (pin_chosen sched_pin ncpus c)
