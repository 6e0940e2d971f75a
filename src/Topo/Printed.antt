-- ===== src/Topo/Printed.antt =====
-- The line that topo prints holds the distribution.
use numafac.Libc.{TextBytes, codes, is_digit, is_space, decimal, sprintf_i, scan_int, atoi}
use numafac.Libc.RoundTrip.{AllChars, scan_int-decimal, scan_int-gap}
use numafac.Topology.Neighbors.Rows.{ScansInts}
use numafac.Topo.{Distributions, threads_of, print_ids, selected, print_selected, topo_main}
use numafac.Prelude.{
  ℕ, ◌+◌, ◌-◌, ◌≡◌, refl, ◌∙◌, subst, inl, inr, some, List, [], ◌∷◌, ◌++◌, map, append_assoc, arith,
  ◌==◌, if◌then◌else◌, Bool-cases, length, length-append, ℤ, pos, ok, Returns, filled,
  load-filled_at,
}

-- A blank or a newline behind each numeral.
separator : ℕ → ℕ → TextBytes
separator last i = if i == last then codes " \n" else codes " \t"

separator-AllChars : (last i : ℕ) → AllChars is_space (separator last i)
unfolding separator is_space
separator-AllChars last i = ground arith

-- The text of the loop.
line_text : ℕ → ℕ → List ℕ → TextBytes
line_text last i [] = []
line_text last i (n ∷ ns) = decimal n ++ (separator last i ++ line_text last (i + 1) ns)

separator-ends :
    (last i n : ℕ) (rest : TextBytes)
    → scan_int (decimal n ++ (separator last i ++ rest)) ≡ (some (pos n), separator last i ++ rest)
unfolding separator
separator-ends last i n rest = elim (Bool-cases (i == last)) [
  | inl e ↦ rw e (unfold is_digit in scan_int-decimal n (codes " \n" ++ rest) refl)
  | inr e ↦ rw e (unfold is_digit in scan_int-decimal n (codes " \t" ++ rest) refl)
]

line_text-ScansInts :
    (last i : ℕ) (ns : List ℕ) (gap : TextBytes)
    → AllChars is_space gap
    → ScansInts (gap ++ line_text last i ns) (map pos ns)
unfolding line_text
line_text-ScansInts last i [] gap a = tt
line_text-ScansInts last i (n ∷ ns) gap a = (
  separator last i ++ line_text last (i + 1) ns,
  scan_int-gap gap (decimal n ++ (separator last i ++ line_text last (i + 1) ns)) a
      ∙ separator-ends last i n (line_text last (i + 1) ns),
  line_text-ScansInts last (i + 1) ns (separator last i) (separator-AllChars last i),
)

print_ids-line_text :
    (last : ℕ) (ns : List ℕ) (done : List ℤ) (i : ℕ)
    → i ≡ length done
    → print_ids last (length ns) i (filled (done ++ map pos ns)) ≡ ok (line_text last i ns)
unfolding print_ids line_text separator sprintf_i
print_ids-line_text last [] done i e = refl
print_ids-line_text last (n ∷ ns) done i e =
    let behind : print_ids last (length ns) (i + 1) (filled (done ++ pos n ∷ map pos ns))
        ≡ ok (line_text last (i + 1) ns) =
      simp append_assoc at (
        print_ids-line_text last ns (done ++ pos n ∷ []) (i + 1)
          (rw length-append (omega arith))) in
    rw (load-filled_at (pos n) done (map pos ns) i e, behind) refl

-- With four arguments that select an array of as many numbers as there are threads, topo prints a
-- text from which these numbers are read again, in their order.
pub topo_main-ScansInts :
    (d : Distributions) (a0 a1 a2 a3 a4 : TextBytes) (ids : List ℕ)
    → selected d (atoi a1) (atoi a2) (atoi a3) (atoi a4) ≡ some (filled (map pos ids))
    → length ids ≡ threads_of (atoi a2)
    → Returns (topo_main d (a0 ∷ a1 ∷ a2 ∷ a3 ∷ a4 ∷ [])) (λ out. ScansInts out (map pos ids))
unfolding topo_main print_selected
topo_main-ScansInts d a0 a1 a2 a3 a4 ids h e =
    let printed : print_ids (threads_of (atoi a2) - 1) (threads_of (atoi a2)) 0
          (filled (map pos ids))
        ≡ ok (line_text (threads_of (atoi a2) - 1) 0 ids) =
      subst
        (λ n.
          print_ids (threads_of (atoi a2) - 1) n 0 (filled (map pos ids))
          ≡ ok (line_text (threads_of (atoi a2) - 1) 0 ids))
        e (print_ids-line_text (threads_of (atoi a2) - 1) ids [] 0 refl) in
    rw (h, printed) (line_text-ScansInts (threads_of (atoi a2) - 1) 0 ids [] tt)
