-- ===== src/Topology/Directories/Names.antt =====
-- What `na_list_allcpus` prints of a node's directory.
use numafac.Libc.{strcat-overflow}
use numafac.Libc.{strcat-ok}
use numafac.Libc.{strcat}
use numafac.Topology.Directories.{list_entries}
use numafac.Libc.{TextBytes, codes, starts_with}
use numafac.Topology.Directories.{Printed, dir_line}
use numafac.Prelude.{
  ℕ, ◌+◌, ◌≤◌, ◌<◌, ◌≡◌, sym, ap, inl, inr, true, false, List, [], ◌∷◌, ◌++◌, append-nil,
  append_assoc, arith, dec_lt, if◌then◌else◌, Bool-cases, length, length-append, overflow, ok,
  fault, ◌>>=◌,
}

-- The names that begin with "cpu".
unfoldable pub cpu_names : List TextBytes → List TextBytes
cpu_names [] = []
cpu_names (n ∷ ns) = if starts_with (codes "cpu") n then n ∷ cpu_names ns else cpu_names ns

-- The lines of a buffer that each name is appended to.
unfoldable pub grown : TextBytes → List TextBytes → Printed
grown buffer [] = []
grown buffer (n ∷ ns) = dir_line (buffer ++ n) ∷ grown (buffer ++ n) ns

-- The number of their characters.
pub total : List TextBytes → ℕ
total [] = 0
total (n ∷ ns) = length n + total ns

list_entries-other :
    (n : TextBytes) (ns : List TextBytes) (buffer : TextBytes) (out : Printed)
    → starts_with (codes "cpu") n ≡ false
    → list_entries (n ∷ ns) buffer out ≡ list_entries ns buffer out
unfolding list_entries
list_entries-other n ns buffer out h = rw (h, list_entries)

list_entries-cpu :
    (n : TextBytes) (ns : List TextBytes) (buffer : TextBytes) (out : Printed)
    → starts_with (codes "cpu") n ≡ true
    → list_entries (n ∷ ns) buffer out
      ≡ (strcat 256 buffer n >>= λ b. list_entries ns b (out ++ dir_line b ∷ []))
unfolding list_entries
list_entries-cpu n ns buffer out h = rw (h, list_entries)

cpu_names-other :
    (n : TextBytes) (ns : List TextBytes)
    → starts_with (codes "cpu") n ≡ false
    → cpu_names (n ∷ ns) ≡ cpu_names ns
unfolding cpu_names
cpu_names-other n ns h = rw h

cpu_names-cpu :
    (n : TextBytes) (ns : List TextBytes)
    → starts_with (codes "cpu") n ≡ true
    → cpu_names (n ∷ ns) ≡ n ∷ cpu_names ns
unfolding cpu_names
cpu_names-cpu n ns h = rw h

list_entries-fits :
    (ns : List TextBytes) (buffer : TextBytes) (out : Printed)
    → length buffer + total (cpu_names ns) < 256
    → list_entries ns buffer out ≡ ok (out ++ grown buffer (cpu_names ns))
unfolding grown total
list_entries-fits [] buffer out h = unfold list_entries cpu_names in ap ok (sym (append-nil out))
list_entries-fits (n ∷ ns) buffer out h = elim (Bool-cases (starts_with (codes "cpu") n)) [
  | inl e ↦
      let room : length buffer + (length n + total (cpu_names ns)) < 256 =
        rw (cpu_names-cpu n ns e) at h in
      rw
        (
          list_entries-cpu n ns buffer out e,
          cpu_names-cpu n ns e,
          strcat-ok 256 buffer n (omega arith),
        )
        (simp append_assoc at (
          list_entries-fits ns (buffer ++ n) (out ++ dir_line (buffer ++ n) ∷ [])
            (rw length-append (omega arith))))
  | inr e ↦
      rw (list_entries-other n ns buffer out e, cpu_names-other n ns e)
        (list_entries-fits ns buffer out (rw (cpu_names-other n ns e) at h))
]

list_entries-overflow :
    (ns : List TextBytes) (buffer : TextBytes) (out : Printed)
    → length buffer < 256
    → 256 ≤ length buffer + total (cpu_names ns)
    → list_entries ns buffer out ≡ fault overflow
unfolding total
list_entries-overflow [] buffer out b h = unfold cpu_names in absurd (omega arith)
list_entries-overflow (n ∷ ns) buffer out b h = elim (Bool-cases (starts_with (codes "cpu") n)) [
  | inl e ↦
      let much : 256 ≤ length buffer + (length n + total (cpu_names ns)) =
        rw (cpu_names-cpu n ns e) at h in
      rw (list_entries-cpu n ns buffer out e) (elim (dec_lt (length buffer + length n) 256) [
        | yes p ↦ rw (strcat-ok 256 buffer n p) (
            list_entries-overflow ns (buffer ++ n) (out ++ dir_line (buffer ++ n) ∷ [])
              (rw length-append p) (rw length-append (omega arith)))
        | no p ↦ rw (strcat-overflow 256 buffer n (omega arith))
      ])
  | inr e ↦
      rw (list_entries-other n ns buffer out e)
        (list_entries-overflow ns buffer out b (rw (cpu_names-other n ns e) at h))
]

-- `na_list_allcpus` appends every name of a node's directory that begins with "cpu" to the same
-- buffer, so that the line of a CPU holds the names of all those before it as well. If the path of
-- the node and all these names have fewer than 256 characters, these lines are printed in the order
-- of the directory; if they have more, the buffer overflows.
pub list_entries_lem :
    (ns : List TextBytes) (path : TextBytes) (out : Printed)
    → length path < 256
    → (length path + total (cpu_names ns) < 256
        → list_entries ns path out ≡ ok (out ++ grown path (cpu_names ns)))
      × (256 ≤ length path + total (cpu_names ns) → list_entries ns path out ≡ fault overflow)
list_entries_lem ns path out h =
    (list_entries-fits ns path out, list_entries-overflow ns path out h)
