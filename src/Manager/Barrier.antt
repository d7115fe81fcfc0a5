-- ===== src/Manager/Barrier.antt =====
-- The barriers of ConcurrentManager.cc: messageStopComUls and messageStopComClauses.
use dsyrup.Base.{
  ℕ, zero, suc, ◌+◌, ◌%◌, ◌^◌, ◌<◌, ◌≡◌, refl, ◌∙◌, List, [], ◌∷◌, arith, All, if◌then◌else◌, ◌==◌,
  replicate, length,
}
use dsyrup.Manager.{
  Manager, Send, answer, Event, solution, stop_com_uls, stop_com_clauses, job_finished, unknown,
  waiting, init, add_others, send_table, solution_found, message_stop_com_uls,
  message_stop_com_clauses, handle, listener,
}

-- The reports of the workers: sender and number of messages sent.
abbrev pub Reports : Type 0
Reports = List (ℕ × ℕ)

-- The reports on unit literals among the events, in order of arrival.
abbrev pub uls_reports : List Event → Reports
uls_reports [] = []
uls_reports (stop_com_uls r n ∷ es) = (r, n) ∷ uls_reports es
uls_reports (_ ∷ es) = uls_reports es

-- The reports on clauses.
abbrev pub clauses_reports : List Event → Reports
clauses_reports [] = []
clauses_reports (stop_com_clauses r n ∷ es) = (r, n) ∷ clauses_reports es
clauses_reports (_ ∷ es) = clauses_reports es

-- What the workers other than `j` report, summed.
abbrev pub sum_others : ℕ → Reports → ℕ
sum_others j [] = 0
sum_others j ((r, n) ∷ reports) = (if j == r then 0 else n) + sum_others j reports

-- The answers that a barrier owes to `n` workers from `from` on.
abbrev pub answers : ℕ → ℕ → Reports → List Send
answers zero from reports = []
answers (suc n) from reports =
    (from, answer (sum_others from reports % 2 ^ 64)) ∷ answers n (suc from) reports

-- The table that adding the reports one after the other leaves.
add_all : List ℕ → Reports → List ℕ
add_all table [] = table
add_all table ((r, n) ∷ reports) = add_all (add_others 0 r n table) reports

abbrev IsTable : List ℕ → Type 0
IsTable = All (λ x. x < 2 ^ 64)

-- The same table, entry by entry.
add_table : ℕ → List ℕ → Reports → List ℕ
add_table from [] reports = []
add_table from (x ∷ xs) reports =
    ((x + sum_others from reports) % 2 ^ 64) ∷ add_table (suc from) xs reports

add_others-IsTable :
    (from r n : ℕ) (table : List ℕ) → IsTable table → IsTable (add_others from r n table)
unfolding add_others
add_others-IsTable from r n [] t = tt
add_others-IsTable from r n (x ∷ xs) t = (ground arith, add_others-IsTable (suc from) r n xs t.1)

add_table-nil : (from : ℕ) (table : List ℕ) → IsTable table → table ≡ add_table from table []
unfolding add_table
add_table-nil from [] t = refl
add_table-nil from (x ∷ xs) t = ground (arith, add_table-nil (suc from) xs t.1)

add_table-cons :
    (from r n : ℕ) (table : List ℕ) (reports : Reports)
    → IsTable table
    → add_table from (add_others from r n table) reports ≡ add_table from table ((r, n) ∷ reports)
unfolding add_table add_others
add_table-cons from r n [] reports t = refl
add_table-cons from r n (x ∷ xs) reports t =
    ground (arith, add_table-cons (suc from) r n xs reports t.1)

add_others-add_table :
    (from r n : ℕ) (table : List ℕ) (reports : Reports)
    → IsTable table
    → add_others from r n (add_table from table reports) ≡ add_table from table ((r, n) ∷ reports)
unfolding add_table add_others
add_others-add_table from r n [] reports t = refl
add_others-add_table from r n (x ∷ xs) reports t =
    ground (arith, add_others-add_table (suc from) r n xs reports t.1)

add_all-add_table :
    (table : List ℕ) (reports : Reports)
    → IsTable table
    → add_all table reports ≡ add_table 0 table reports
unfolding add_all
add_all-add_table table [] t = add_table-nil 0 table t
add_all-add_table table ((r, n) ∷ reports) t =
    add_all-add_table (add_others 0 r n table) reports (add_others-IsTable 0 r n table t)
    ∙ add_table-cons 0 r n table reports t

send_table-answers :
    (n from : ℕ) (reports : Reports)
    → send_table from (add_table from (replicate n 0) reports) ≡ answers n from reports
unfolding send_table add_table
send_table-answers zero from reports = refl
send_table-answers (suc n) from reports = ground (arith, send_table-answers n (suc from) reports)

replicate-IsTable : (n : ℕ) → IsTable (replicate n 0)
replicate-IsTable zero = tt
replicate-IsTable (suc n) = (omega arith, replicate-IsTable n)

-- What a run of the listener leaves in the fields of the barriers.
record Counted (m : Manager) (es : List Event) (last : Manager) : Type 0 where
  size : last.size_comm ≡ m.size_comm
  uls : last.nb_uls_to_receive ≡ add_all m.nb_uls_to_receive (uls_reports es)
  nb_uls : last.nb_worker_uls ≡ m.nb_worker_uls + length (uls_reports es)
  clauses : last.nb_clauses_to_receive ≡ add_all m.nb_clauses_to_receive (clauses_reports es)
  nb_clauses : last.nb_worker_clauses ≡ m.nb_worker_clauses + length (clauses_reports es)

listener-Counted :
    (m : Manager) (es : List Event) → (listener m es).0 ≡ waiting → Counted m es (listener m es).1
unfolding listener handle solution_found message_stop_com_uls message_stop_com_clauses add_all
listener-Counted m [] h = record {
  size = refl;
  uls = refl;
  nb_uls = omega arith;
  clauses = refl;
  nb_clauses = omega arith;
}
listener-Counted m (solution r res ∷ es) h =
    ground (arith, listener-Counted (solution_found m r res).0 es h)
listener-Counted m (stop_com_uls r n ∷ es) h =
    ground (arith, listener-Counted (message_stop_com_uls m r n).0 es h)
listener-Counted m (stop_com_clauses r n ∷ es) h =
    ground (arith, listener-Counted (message_stop_com_clauses m r n).0 es h)
listener-Counted m (job_finished ∷ es) h = cc
listener-Counted m (unknown ∷ es) h = cc

-- After any run of the listener that has not ended, whatever the interleaving with other messages,
-- the report of a worker on its unit literals is answered only if it is the last one expected:
-- then each worker is sent, in order of rank, the sum (modulo 2 ^ 64) of what all the others
-- reported; otherwise nothing is sent.
pub barrier_uls :
    (n : ℕ) (es : List Event) (rank count : ℕ)
    → (listener (init n) es).0 ≡ waiting
    → (handle (listener (init n) es).1 (stop_com_uls rank count)).1 ≡ (
        if length (uls_reports es) + 1 == n
        then answers n 0 ((rank, count) ∷ uls_reports es)
        else [])
unfolding handle message_stop_com_uls init
barrier_uls n es rank count h = ground (
  arith,
  listener-Counted (init n) es h,
  add_all-add_table (replicate n 0) (uls_reports es) (replicate-IsTable n),
  add_others-add_table 0 rank count (replicate n 0) (uls_reports es) (replicate-IsTable n),
  send_table-answers n 0 ((rank, count) ∷ uls_reports es),
)

-- After any run of the listener that has not ended, the report of a worker on its clauses is
-- answered only if it is the last one expected: then each worker is sent, in order of rank, the sum
-- (modulo 2 ^ 64) of the clauses that all the others reported; otherwise nothing is sent.
pub barrier_clauses :
    (n : ℕ) (es : List Event) (rank count : ℕ)
    → (listener (init n) es).0 ≡ waiting
    → (handle (listener (init n) es).1 (stop_com_clauses rank count)).1 ≡ (
        if length (clauses_reports es) + 1 == n
        then answers n 0 ((rank, count) ∷ clauses_reports es)
        else [])
unfolding handle message_stop_com_clauses init
barrier_clauses n es rank count h = ground (
  arith,
  listener-Counted (init n) es h,
  add_all-add_table (replicate n 0) (clauses_reports es) (replicate-IsTable n),
  add_others-add_table 0 rank count (replicate n 0) (clauses_reports es) (replicate-IsTable n),
  send_table-answers n 0 ((rank, count) ∷ clauses_reports es),
)
