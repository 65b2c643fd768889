-- ===== src/Governance/Usage/Laws.antt =====
-- internal/governance/usage.go and `flushUsageHistory`: what becomes of the records.
use mathlib.Core.List.{append_assoc, append-nil}
use diffractllm.Base.{
  ℕ, suc, ◌+◌, ◌≤◌, ◌<◌, ◌≡◌, refl, ap, ◌∙◌, Bool, true, false, none, some, String, List, [], ◌∷◌,
  ◌++◌, ℤ, pos, length, add64, add64-pos_suc, length-append, arith, Bool-cases, inl, inr, leb,
}
use diffractllm.Governance.Usage.{
  flush_drained, UsageRecord, UsageBuffer, append, append_all, StoreUsageRecord, store_records,
  finish_flush, flush_usage_history, UsageState, UsageEvent, appended, drained, finished,
  usage_step, usage_run,
}

abbrev pub IsBounded : UsageBuffer → Type 0
IsBounded ub = length ub.records ≤ ub.max_capacity

append-IsBounded : (r : UsageRecord) (ub : UsageBuffer) → IsBounded ub → IsBounded (append r ub)
unfolding append
append-IsBounded r ub h = ground (arith, length-append ub.records (r ∷ []))

append_all-IsBounded :
    (rs : List UsageRecord) (ub : UsageBuffer) → IsBounded ub → IsBounded (append_all rs ub)
unfolding append_all
append_all-IsBounded [] ub h = h
append_all-IsBounded (r ∷ rs) ub h = append_all-IsBounded rs (append r ub) (append-IsBounded r ub h)

usage_step-IsBounded :
    (e : UsageEvent) (s : UsageState) → IsBounded s.buffer → IsBounded (usage_step s e).buffer
unfolding usage_step
usage_step-IsBounded (appended r) s h = append-IsBounded r s.buffer h
usage_step-IsBounded drained s h = ground arith
usage_step-IsBounded (finished new_id now fails) s h =
    ground (arith, append_all-IsBounded s.in_flight s.buffer h)

-- The buffer never holds more than its capacity, over any requests and flushes, failed ones included.
pub usage_run-IsBounded :
    (es : List UsageEvent) (s : UsageState) → IsBounded s.buffer → IsBounded (usage_run s es).buffer
unfolding usage_run
usage_run-IsBounded [] s h = h
usage_run-IsBounded (e ∷ es) s h =
    usage_run-IsBounded es (usage_step s e) (usage_step-IsBounded e s h)

length-store_records :
    (new_id : ℕ → String) (now : ℤ) (i : ℕ) (rs : List UsageRecord)
    → length (store_records new_id now i rs) ≡ length rs
unfolding store_records
length-store_records new_id now i [] = refl
length-store_records new_id now i (r ∷ rs) = ap suc (length-store_records new_id now (i + 1) rs)

-- Records that are buffered, counted with `n` others and with those that were dropped.
abbrev tally : ℕ → UsageBuffer → ℤ
tally n ub = add64 (pos (n + length ub.records)) ub.dropped

tally-append :
    (n : ℕ) (r : UsageRecord) (ub : UsageBuffer) → tally n (append r ub) ≡ tally (n + 1) ub
unfolding append
tally-append n r ub = elim (Bool-cases (leb ub.max_capacity (length ub.records))) [
  | inl full ↦ rw full (
      add64-pos_suc (n + length ub.records) ub.dropped
      ∙ ap (λ k. add64 (pos k) ub.dropped) (omega arith))
  | inr room ↦
      rw room
        (ap (λ k. add64 (pos k) ub.dropped) (omega (arith, length-append ub.records (r ∷ []))))
]

tally-append_all :
    (n : ℕ) (rs : List UsageRecord) (ub : UsageBuffer)
    → tally n (append_all rs ub) ≡ tally (n + length rs) ub
unfolding append_all
tally-append_all n [] ub = ap (λ k. add64 (pos k) ub.dropped) (omega arith)
tally-append_all n (r ∷ rs) ub =
    tally-append_all n rs (append r ub)
    ∙ tally-append (n + length rs) r ub
    ∙ ap (λ k. add64 (pos k) ub.dropped) (omega arith)

-- All the records of a state: stored, in flight, buffered and dropped.
abbrev pub total : ℕ → UsageState → ℤ
total n s =
    add64 (pos (n + length s.rows + length s.in_flight + length s.buffer.records)) s.buffer.dropped

-- How many records the requests hand over.
abbrev pub offered : List UsageEvent → ℕ
offered [] = 0
offered (appended r ∷ es) = suc (offered es)
offered (drained ∷ es) = offered es
offered (finished new_id now fails ∷ es) = offered es

offered-cons :
    (e : UsageEvent) (es : List UsageEvent) → offered (e ∷ es) ≡ offered es + offered (e ∷ [])
offered-cons (appended r) es = omega arith
offered-cons drained es = omega arith
offered-cons (finished new_id now fails) es = omega arith

module _ (new_id : ℕ → String) (now : ℤ) (ub : UsageBuffer) (rows : List StoreUsageRecord) where
  finish_flush-stored :
      (rs : List UsageRecord)
      → finish_flush new_id now false rs (ub, rows)
        ≡ (ub, rows ++ store_records new_id now 0 rs, some (length rs))
  unfolding finish_flush
  finish_flush-stored [] = simp append-nil
  finish_flush-stored (r ∷ rs) = refl

  finish_flush-failed :
      (r : UsageRecord) (rs : List UsageRecord)
      → finish_flush new_id now true (r ∷ rs) (ub, rows) ≡ (append_all (r ∷ rs) ub, rows, none)
  unfolding finish_flush
  finish_flush-failed r rs = refl

finish_flush-total :
    (fails : Bool) (rs : List UsageRecord) (new_id : ℕ → String) (now : ℤ) (n : ℕ)
    (ub : UsageBuffer) (rows : List StoreUsageRecord)
    → let (ub', rows', _) = finish_flush new_id now fails rs (ub, rows) in
      tally (n + length rows') ub' ≡ tally (n + length rows + length rs) ub
finish_flush-total false rs new_id now n ub rows = rw (finish_flush-stored new_id now ub rows rs) (
    ap (λ k. add64 (pos (n + k + length ub.records)) ub.dropped)
      (length-append rows (store_records new_id now 0 rs))
    ∙ ap (λ k. add64 (pos k) ub.dropped) (omega (arith, length-store_records new_id now 0 rs)))
finish_flush-total true [] new_id now n ub rows =
    unfold finish_flush in ap (λ k. add64 (pos k) ub.dropped) (omega arith)
finish_flush-total true (r ∷ rs) new_id now n ub rows =
    rw (finish_flush-failed new_id now ub rows r rs)
      (tally-append_all (n + length rows) (r ∷ rs) ub)

usage_step-total :
    (e : UsageEvent) (n : ℕ) (s : UsageState)
    → total n (usage_step s e) ≡ total (n + offered (e ∷ [])) s
unfolding usage_step
usage_step-total (appended r) n s =
    tally-append (n + length s.rows + length s.in_flight) r s.buffer
    ∙ ap (λ k. add64 (pos k) s.buffer.dropped) (omega arith)
usage_step-total drained n s = ground arith
usage_step-total (finished new_id now fails) n s =
    let (ub', rows', _) = finish_flush new_id now fails s.in_flight (s.buffer, s.rows) in
    ap (λ k. add64 (pos k) ub'.dropped) (omega arith)
    ∙ finish_flush-total fails s.in_flight new_id now n s.buffer s.rows
    ∙ ap (λ k. total k s) (omega arith)

-- Every record that a request hands over is stored, in flight, buffered or counted as dropped, once,
-- whichever inserts fail and whatever comes between the halves of a flush (the counts modulo 2^64).
pub usage_run-total :
    (es : List UsageEvent) (n : ℕ) (s : UsageState)
    → total n (usage_run s es) ≡ total (n + offered es) s
unfolding usage_run
usage_run-total [] n s = ap (λ k. total k s) (omega arith)
usage_run-total (e ∷ es) n s =
    usage_run-total es n (usage_step s e)
    ∙ usage_step-total e (n + offered es) s
    ∙ ap (λ k. total k s) (omega (arith, offered-cons e es))

append-room :
    (r : UsageRecord) (ub : UsageBuffer)
    → length ub.records < ub.max_capacity
    → append r ub ≡ record ub { records = ub.records ++ r ∷ [] }
unfolding append
append-room r ub h = ground arith

append_all_lem :
    (rs : List UsageRecord) (ub : UsageBuffer)
    → length ub.records + length rs ≤ ub.max_capacity
    → append_all rs ub ≡ record ub { records = ub.records ++ rs }
unfolding append_all
append_all_lem [] ub h = rw append-nil
append_all_lem (r ∷ rs) ub h = rw (append-room r ub (omega arith)) (
    append_all_lem rs (record ub { records = ub.records ++ r ∷ [] })
      (omega (arith, length-append ub.records (r ∷ [])))
    ∙ ap (λ l. record ub { records = l }) (append_assoc ub.records (r ∷ []) rs))

module _ (new_id : ℕ → String) (now : ℤ) (ub : UsageBuffer) (rows : List StoreUsageRecord) where
  abbrev emptied : UsageBuffer
  emptied = record ub { records = [] }

  flush_drained-failed :
      (rs : List UsageRecord)
      → length rs ≤ ub.max_capacity
      → let (ub', rows', _) = flush_drained new_id now true rs (emptied, rows) in
        (ub' ≡ record ub { records = rs }) × (rows' ≡ rows)
  unfolding flush_drained
  flush_drained-failed [] h = (refl, refl)
  flush_drained-failed (r ∷ rs) h = (append_all_lem (r ∷ rs) emptied (omega arith), refl)

  flush_drained-stored :
      (rs : List UsageRecord)
      → flush_drained new_id now false rs (emptied, rows)
        ≡ (emptied, rows ++ store_records new_id now 0 rs, some (length rs))
  unfolding flush_drained
  flush_drained-stored [] = simp append-nil
  flush_drained-stored (r ∷ rs) = finish_flush-stored new_id now emptied rows (r ∷ rs)

-- A flush whose insert fails gives the records back: buffer and rows are as before, and nothing is
-- dropped, where no request comes between and the buffer is within its capacity.
pub flush_usage_history-failed :
    (new_id : ℕ → String) (now : ℤ) (ub : UsageBuffer) (rows : List StoreUsageRecord)
    → IsBounded ub
    → ((flush_usage_history new_id now true (ub, rows)).0 ≡ ub)
      × ((flush_usage_history new_id now true (ub, rows)).1 ≡ rows)
unfolding flush_usage_history
flush_usage_history-failed new_id now ub rows h =
    flush_drained-failed new_id now ub rows ub.records h

-- A flush whose insert succeeds leaves the buffer empty, and its records, in order, behind the rows.
pub flush_usage_history-stored :
    (new_id : ℕ → String) (now : ℤ) (ub : UsageBuffer) (rows : List StoreUsageRecord)
    → flush_usage_history new_id now false (ub, rows) ≡ (
      record ub { records = [] },
      rows ++ store_records new_id now 0 ub.records,
      some (length ub.records),
    )
unfolding flush_usage_history
flush_usage_history-stored new_id now ub rows = flush_drained-stored new_id now ub rows ub.records
