-- ===== src/Lmbench/System.antt =====
-- lmbench3/src/lib_timing.c: benchmp_parent and its children, which run in any order and meet at
-- three pipes. Errors and signals are left out: the parent and the children live.
pub mod Counting
pub mod Invariant
pub mod Steps
pub mod Barriers
pub mod Bytes
pub mod Reports
pub mod Collected
pub mod Complete
pub mod Exchange
pub mod Waiting
use numafac.Lmbench.Results.{Results}
use numafac.Lmbench.Child.{
  Doubles, Phase, Child, Message, ready, done, report, Input, Reply, benchmp_child,
  benchmp_interval,
}
use numafac.Lmbench.Child.Stages.{Stage, over, stage}
use numafac.Lmbench.Child.Moves.{start_bytes, result_bytes}
use numafac.Prelude.{
  ℕ, suc, ◌+◌, ◌-◌, ◌≤◌, ◌≡◌, Bool, true, false, List, [], ◌∷◌, ◌++◌, length, replicate, ℤ, ok,
}

-- A child in the loop of benchmp_child, or one that has reported these results.
pub data Process : Type 0 where
  running : Child → Process
  reported : Results → Process

abbrev pub stage_in : Process → Stage
stage_in (running c) = stage c
stage_in (reported r) = over r

-- Where benchmp_parent stands: with so many bytes to read before it sends the start, and before it
-- asks for reports; with so many reports to ask for; with so many to ask for and so many bytes of
-- one to read; behind the write to exit_signal.
pub data Parent : Type 0 where
  gather_ready gather_done asking : ℕ → Parent
  reading : ℕ → ℕ → Parent
  finished : Parent

-- The bytes in the pipe `response`, by the message that each is of; how many bytes are in
-- `start_signal` and `result_signal`; the bytes that the parent read into `results`; and the results
-- that it merged, the last ones first.
pub record System : Type 0 where
  pub parent : Parent
  pub processes : List Process
  pub response : List Message
  pub start_signal : ℕ
  pub result_signal : ℕ
  pub buffer : List Message
  pub merged : List Results

-- The bytes of a message, where a result_t has `size` bytes.
abbrev pub bytes_of : ℕ → Message → List Message
bytes_of size ready = ready ∷ []
bytes_of size done = done ∷ []
bytes_of size (report r) = replicate size (report r)

abbrev pub written : ℕ → List Message → List Message
written size [] = []
written size (m ∷ ms) = bytes_of size m ++ written size ms

abbrev pub process_after : Bool → Child → Process
process_after true c = reported (c.r)
process_after false c = running c

-- benchmp_parent forks `n` children. A step is one round of a loop of the parent, or what stands
-- between two loops, or a call of benchmp_interval by a child, which finds a byte in a pipe only if
-- there is one. What a read gives is any number of the bytes that are there; `merge` takes the
-- report that the buffer holds.
module _ {D : Type 0} (dbl : Doubles D) (n size : ℕ) where
  pub data Step (s : System) : System → Type 0 where
    read_ready :
        (left j : ℕ) (bytes rest : List Message)
        → s.parent ≡ gather_ready left
        → s.response ≡ bytes ++ rest
        → length bytes ≡ suc j
        → suc j ≤ left
        → Step s (record s { parent = gather_ready (left - suc j); response = rest })
    send_start :
        s.parent ≡ gather_ready 0
        → Step s (record s { parent = gather_done n; start_signal = s.start_signal + n })
    read_done :
        (left j : ℕ) (bytes rest : List Message)
        → s.parent ≡ gather_done left
        → s.response ≡ bytes ++ rest
        → length bytes ≡ suc j
        → suc j ≤ left
        → Step s (record s { parent = gather_done (left - suc j); response = rest })
    all_done : s.parent ≡ gather_done 0 → Step s (record s { parent = asking n })
    ask :
        (k : ℕ)
        → s.parent ≡ asking (suc k)
        → Step s
            (record s { parent = reading k size; result_signal = s.result_signal + 1; buffer = [] })
    read_report :
        (k left j : ℕ) (bytes rest : List Message)
        → s.parent ≡ reading k left
        → s.response ≡ bytes ++ rest
        → length bytes ≡ suc j
        → suc j ≤ left
        → Step s (record s {
          parent = reading k (left - suc j);
          response = rest;
          buffer = s.buffer ++ bytes;
        })
    merge :
        (k : ℕ) (r : Results)
        → s.parent ≡ reading k 0
        → s.buffer ≡ bytes_of size (report r)
        → Step s (record s { parent = asking k; merged = r ∷ s.merged })
    release : s.parent ≡ asking 0 → Step s (record s { parent = finished })
    call :
        (xs ys : List Process) (c : Child) (inp : Input D) (reply : Reply)
        → s.processes ≡ xs ++ running c ∷ ys
        → inp.orphaned ≡ false
        → start_bytes (c.phase) inp ≤ s.start_signal
        → result_bytes (c.phase) inp ≤ s.result_signal
        → benchmp_interval dbl inp c ≡ ok reply
        → Step s (record s {
          processes = xs ++ process_after (reply.exited) (reply.child) ∷ ys;
          response = s.response ++ written size (reply.sent);
          start_signal = s.start_signal - start_bytes (c.phase) inp;
          result_signal = s.result_signal - result_bytes (c.phase) inp;
        })

-- The parent and its children, just forked.
abbrev pub forked : ℕ → Child → System
forked n c = record {
  parent = gather_ready n;
  processes = replicate n (running c);
  response = [];
  start_signal = 0;
  result_signal = 0;
  buffer = [];
  merged = [];
}

pub data Reach {D : Type 0} (dbl : Doubles D) (n size : ℕ) (s : System) : System → Type 0 where
  here : Reach dbl n size s s
  later : {t u : System} → Reach dbl n size s t → Step dbl n size t u → Reach dbl n size s u

-- What is reached from the parent and the children that benchmp forks.
abbrev pub Reached : {D : Type 0} → Doubles D → ℕ → ℕ → ℕ → ℕ → ℕ → ℤ → System → Type 0
Reached dbl n size get_n enough iterations repetitions s =
    Reach dbl n size (forked n (benchmp_child get_n enough iterations n repetitions)) s
