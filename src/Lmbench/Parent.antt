-- ===== src/Lmbench/Parent.antt =====
-- lmbench3/src/lib_timing.c: benchmp_parent, which waits for its children at three pipes, tells
-- them to start and to report, and merges what they report.
pub mod Merging
pub mod Order
pub mod Arrival
use numafac.Lmbench.Results.{Measure, Results, insertsort, insertinit, sizeof_result, save_median}
use numafac.Prelude.{
  ℕ, zero, suc, ◌+◌, ◌-◌, ◌*◌, Bool, not, List, [], ◌∷◌, if◌then◌else◌, ℤ, pos, pos_part, ◌*ℤ◌,
  ltb_ℤ, Run, ok, ◌>>=◌, malloc, load,
}

-- What one round of a loop over `response` finds: a signal or an error on the pipe, whether there
-- is something to read, and what read returns.
pub record Poll : Type 0 where
  pub interrupted : Bool
  pub readable : Bool
  pub bytes_read : ℤ

-- A loop over `response` after some rounds: with all bytes read, at error_exit, or still in it.
pub data Wait : Type 0 where
  collected : List Poll → Wait
  failed pending : Wait

-- What the parent writes, with the number of bytes: to start_signal, result_signal and exit_signal.
pub data Signal : Type 0 where
  start_signal result_signal exit_signal : ℕ → Signal

-- How the parent ends: with the results, at error_exit, or not yet.
pub data Ending : Type 0 where
  merged : Results → Measure → Ending
  error_exit still_waiting : Ending

-- for (i = 0; i < parallel; i += bytes_read), with parallel - i; and the loop over the bytes of a
-- report, with n.
unfoldable pub collect_bytes : ℕ → List Poll → Wait
collect_bytes zero polls = collected polls
collect_bytes (suc n) [] = pending
collect_bytes (suc n) (poll ∷ polls) =
    let waits = collect_bytes (suc n) polls in
    let reads = collect_bytes (suc n - pos_part (poll.bytes_read)) polls in
    if poll.interrupted
    then failed
    else if not (poll.readable)
    then waits
    else if ltb_ℤ (poll.bytes_read) (pos 0)
    then failed
    else reads

-- After such a loop: at error_exit, or still waiting, the parent has written `sent`.
unfoldable pub after_bytes :
    Wait → List Signal → (List Poll → Run (List Signal × Ending)) → Run (List Signal × Ending)
after_bytes (collected rest) sent go_on = go_on rest
after_bytes failed sent go_on = ok (sent, error_exit)
after_bytes pending sent go_on = ok (sent, still_waiting)

-- The size of a result_t with these cells, on a machine of 64 bits.
unfoldable pub size_in_bytes : ℤ → ℕ
unfolding sizeof_result
size_in_bytes repetitions = 8 + 16 * sizeof_result repetitions

module _ (above : Measure → Measure → Bool) where
  -- for (j = 0; j < results->N; ++j) insertsort(...), with the rounds left.
  unfoldable pub merge_results : ℕ → ℕ → Results → Results → Run Results
  merge_results zero j results merged_results = ok merged_results
  merge_results (suc n) j results merged_results = do
    m ← load (results.cells) j
    merged_results ← insertsort above (m.0) (m.1) merged_results
    merge_results n (j + 1) results merged_results

  -- The end of benchmp_parent: set_results calls save_median.
  unfoldable pub finish_parent : ℕ → Results → Run (List Signal × Ending)
  finish_parent parallel merged_results = do
    m ← save_median merged_results
    ok (exit_signal parallel ∷ [], merged merged_results m)

  -- `collect results`, over the reports that come through the pipe, one from each child.
  unfoldable pub collect_results :
      ℕ → ℤ → List Results → List Poll → Results → Run (List Signal × Ending)
  collect_results parallel repetitions [] polls merged_results =
      finish_parent parallel merged_results
  collect_results parallel repetitions (results ∷ reports) polls merged_results =
      after_bytes (collect_bytes (size_in_bytes repetitions) polls) (result_signal 1 ∷ []) (λ rest.
        do
          merged_results ← merge_results (results.count) 0 results merged_results
          (signals, ending) ← collect_results parallel repetitions reports rest merged_results
          ok (result_signal 1 ∷ signals, ending))

  -- Collect 'done' signals, and what follows.
  unfoldable pub collect_done : ℕ → ℤ → List Results → List Poll → Run (List Signal × Ending)
  unfolding sizeof_result insertinit
  collect_done parallel repetitions reports polls =
      after_bytes (collect_bytes parallel polls) [] (λ rest.
        collect_results parallel repetitions reports rest (
          insertinit
            record { count = 0; cells = malloc (sizeof_result (pos parallel *ℤ repetitions)) }))

  -- benchmp_parent, from where it waits for the children to be ready.
  unfoldable pub benchmp_parent : ℕ → ℤ → List Results → List Poll → Run (List Signal × Ending)
  benchmp_parent parallel repetitions reports polls =
      after_bytes (collect_bytes parallel polls) [] (λ rest. do
        (signals, ending) ← collect_done parallel repetitions reports rest
        ok (start_signal parallel ∷ signals, ending))
