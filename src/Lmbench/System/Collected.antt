-- ===== src/Lmbench/System/Collected.antt =====
-- What the parent has read and merged is what the children have reported, in every state that is
-- reached.
use numafac.Lmbench.System.Steps.{Reached-IsSound, reply-Moves, at_parent}
use numafac.Lmbench.System.{
  later, Reached, here, Parent, gather_ready, gather_done, asking, reading, finished, Process,
  running, stage_in, process_after, System, written, Step, read_ready, send_start, read_done,
  all_done, ask, read_report, merge, release, call, bytes_of,
}
use numafac.Lmbench.Child.{benchmp_child, Doubles, Child, Message, report, Input, Reply}
use mathlib.Core.List.{Perm}
use mathlib.Core.List.Perm
use numafac.Lmbench.Results.{Results}
use numafac.Lmbench.Child.Stages.{fresh, stage}
use numafac.Lmbench.Child.Moves.{Moves, start_bytes, result_bytes}
use numafac.Lmbench.System.Counting.{length-tally, counts}
use numafac.Lmbench.System.Invariant.{Accounts}
use numafac.Lmbench.System.Barriers.{Counted, member-Counted}
use numafac.Lmbench.System.Bytes.{no-bytes}
use numafac.Lmbench.System.Reports.{
  told, reports_of, reports_of-middle, reports_of-after, is_reading, Collected, IsCollected, Allows,
  Move-Collected,
}
use numafac.Prelude.{
  ℕ, zero, suc, ◌-◌, ◌≤◌, ◌<◌, ◌≡◌, refl, sym, ap, ◌∙◌, subst, inl, inr, true, List, [], ◌∷◌, ◌++◌,
  append-nil, append_assoc, arith, length, replicate, length-append, ℤ,
}

Accounts-Allows :
    (n size : ℕ) (par : Parent) (s : System) (p : Process)
    → Accounts n size par (counts s)
    → Counted s p
    → Allows (is_reading par) (s.result_signal) (s.response) (stage_in p)
Accounts-Allows n size (gather_ready left) s p h c = omega (arith, h)
Accounts-Allows n size (gather_done left) s p h c = omega (arith, h)
Accounts-Allows n size (asking k) s p h c = omega (arith, h)
Accounts-Allows n size (reading k left) s p (_, _, z, m, inl (o, b, l)) c =
    (omega (arith, z, c), inl (no-bytes (s.response) (omega (arith, m, b))))
Accounts-Allows n size (reading k left) s p (_, _, z, m, inr (o, b)) c =
    (omega (arith, z, c), inr o)
Accounts-Allows n size finished s p h c = omega (arith, h)

head_report : Results → List Message → Results
head_report r (report r' ∷ ms) = r'
head_report r ms = r

same_report :
    (size : ℕ) (r r' : Results)
    → 0 < size
    → replicate size (report r) ≡ replicate size (report r')
    → r ≡ r'
unfolding head_report
same_report zero r r' room e = let f : ⊥ = omega (arith, room) in elim f [ ]
same_report (suc size) r r' room e = ap (head_report r) e

module _ {D : Type 0} (dbl : Doubles D) (n size : ℕ) (room : 0 < size) where
  read_part :
      (k left j : ℕ) (s : System) (bytes rest : List Message)
      → Accounts n size (reading k left) (counts s)
      → s.response ≡ bytes ++ rest
      → length bytes ≡ suc j
      → Collected true size
          (s.result_signal)
          (s.buffer)
          (s.response)
          (s.merged)
          (reports_of (s.processes))
      → Collected true size
          (s.result_signal)
          (s.buffer ++ bytes)
          rest
          (s.merged)
          (reports_of (s.processes))
  read_part k left j s bytes rest h e l (inl (o, b, p)) =
      let all = length-tally (s.response) in
      let f : ⊥ = omega (arith, h, o, all, l, ap (λ m. length m) e, length-append bytes rest) in
      elim f [ ]
  read_part k left j s bytes rest h e l (inr (o, (r, b, p))) =
      inr (o, (r, append_assoc (s.buffer) bytes rest ∙ ap (λ m. s.buffer ++ m) (sym e) ∙ b, p))

  merge_report :
      (k : ℕ) (s : System) (r : Results)
      → Accounts n size (reading k 0) (counts s)
      → s.buffer ≡ replicate size (report r)
      → Collected true size
          (s.result_signal)
          (s.buffer)
          (s.response)
          (s.merged)
          (reports_of (s.processes))
      → Perm (reports_of (s.processes)) (r ∷ s.merged)
  merge_report k s r h e (inl (o, b, p)) = let f : ⊥ = omega (arith, h, o, room) in elim f [ ]
  merge_report k s r h e (inr (o, (r', b, p))) =
      let empty = no-bytes (s.response) (omega (arith, h, o)) in
      let whole = sym e ∙ sym (append-nil (s.buffer)) ∙ ap (λ m. s.buffer ++ m) (sym empty) ∙ b in
      subst (λ x. Perm (reports_of (s.processes)) (x ∷ s.merged))
        (sym (same_report size r r' room whole)) p

  call-Collected :
      (s : System) (xs ys : List Process) (c : Child) (inp : Input D) (reply : Reply)
      → s.processes ≡ xs ++ running c ∷ ys
      → result_bytes (c.phase) inp ≤ s.result_signal
      → Moves (start_bytes (c.phase) inp) (result_bytes (c.phase) inp) (stage c) reply
      → Accounts n size (s.parent) (counts s)
      → IsCollected size s
      → IsCollected size (record s {
        processes = xs ++ process_after (reply.exited) (reply.child) ∷ ys;
        response = s.response ++ written size (reply.sent);
        start_signal = s.start_signal - start_bytes (c.phase) inp;
        result_signal = s.result_signal - result_bytes (c.phase) inp;
      })
  call-Collected s xs ys c inp reply e q mv a h =
      let reads = is_reading (s.parent) in
      let holds : List Results → Type 0 = λ l.
        Collected reads size (s.result_signal - result_bytes (c.phase) inp) (s.buffer)
          (s.response ++ written size (reply.sent)) (s.merged) l in
      subst holds (sym (reports_of-after xs ys (reply.exited) (reply.child))) (
        Move-Collected size (reports_of xs) (reports_of ys) (s.result_signal) (s.buffer)
          (s.response) (s.merged) mv reads q
          (Accounts-Allows n size (s.parent) s (running c) a (member-Counted s xs (running c) ys e))
          (subst (Collected reads size (s.result_signal) (s.buffer) (s.response) (s.merged))
            (reports_of-middle (s.processes) xs (running c) ys e) h))

  pub at_parent-Collected :
      (s : System) (par : Parent)
      → s.parent ≡ par
      → IsCollected size s
      → Collected
          (is_reading par)
          size
          (s.result_signal)
          (s.buffer)
          (s.response)
          (s.merged)
          (reports_of (s.processes))
  at_parent-Collected s par e h =
      subst
        (λ q.
          Collected (is_reading q) size (s.result_signal) (s.buffer) (s.response) (s.merged)
            (reports_of (s.processes)))
        e h

  Step-IsCollected :
      {s t : System}
      → Step dbl n size s t
      → Accounts n size (s.parent) (counts s)
      → IsCollected size s
      → IsCollected size t
  Step-IsCollected {s} (read_ready left j bytes rest e r l k) a h =
      at_parent-Collected s (gather_ready left) e h
  Step-IsCollected {s} (send_start e) a h = at_parent-Collected s (gather_ready 0) e h
  Step-IsCollected {s} (read_done left j bytes rest e r l k) a h =
      at_parent-Collected s (gather_done left) e h
  Step-IsCollected {s} (all_done e) a h = at_parent-Collected s (gather_done 0) e h
  Step-IsCollected {s} (ask k e) a h =
      let b = at_parent dbl n size room s (asking (suc k)) e a in
      inl (omega (arith, b), refl, at_parent-Collected s (asking (suc k)) e h)
  Step-IsCollected {s} (read_report k left j bytes rest e r l m) a h =
      read_part k left j s bytes rest (at_parent dbl n size room s (reading k left) e a) r l
        (at_parent-Collected s (reading k left) e h)
  Step-IsCollected {s} (merge k r e f) a h =
      merge_report k s r (at_parent dbl n size room s (reading k 0) e a) f
        (at_parent-Collected s (reading k 0) e h)
  Step-IsCollected {s} (release e) a h = at_parent-Collected s (asking 0) e h
  Step-IsCollected {s} (call xs ys c inp reply e o p q f) a h =
      call-Collected s xs ys c inp reply e q (reply-Moves dbl c inp reply o f) a h

  reports_of-fresh :
      (k : ℕ) (c : Child) → stage c ≡ fresh → reports_of (replicate k (running c)) ≡ []
  unfolding reports_of
  reports_of-fresh zero c e = refl
  reports_of-fresh (suc k) c e =
      ap (λ s. told s ++ reports_of (replicate k (running c))) e ∙ reports_of-fresh k c e

  pub Reached-IsCollected :
      (get_n enough iterations : ℕ) (repetitions : ℤ) {s : System}
      → Reached dbl n size get_n enough iterations repetitions s
      → IsCollected size s
  unfolding benchmp_child
  Reached-IsCollected get_n enough iterations repetitions here =
      subst (λ l. Perm l [])
        (sym (reports_of-fresh n (benchmp_child get_n enough iterations n repetitions) refl))
        (Perm.refl _)
  Reached-IsCollected get_n enough iterations repetitions (later r st) =
      Step-IsCollected st (Reached-IsSound dbl n size room get_n enough iterations repetitions r)
        (Reached-IsCollected get_n enough iterations repetitions r)

  -- Behind the last byte of a report.
  pub whole_report :
      (k : ℕ) (s : System)
      → Accounts n size (reading k 0) (counts s)
      → Collected true size
          (s.result_signal)
          (s.buffer)
          (s.response)
          (s.merged)
          (reports_of (s.processes))
      → (r : Results) × (s.buffer ≡ bytes_of size (report r))
        × Perm (reports_of (s.processes)) (r ∷ s.merged)
  whole_report k s h (inl (o, b, p)) = let f : ⊥ = omega (arith, h, o, room) in elim f [ ]
  whole_report k s h (inr (o, (r, b, p))) =
      let empty = no-bytes (s.response) (omega (arith, h, o)) in
      (r, sym (append-nil (s.buffer)) ∙ ap (λ m. s.buffer ++ m) (sym empty) ∙ b, p)
