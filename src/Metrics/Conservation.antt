-- ===== src/Metrics/Conservation.antt =====
-- internal/metrics-engine: what becomes of the events that requests add.
use diffractllm.Base.{
  subst, is_set, ℕ, suc, ◌+◌, ◌≤◌, ◌<◌, ◌≡◌, refl, ap, Bool, true, false, Option, none, some, List,
  [], ◌∷◌, ◌++◌, length, arith, Bool-cases, inl, inr, leb, ltb, if◌then◌else◌, length-append,
}
use diffractllm.Metrics.Buffer.{append_event, drain_events}
use diffractllm.Metrics.Engine.{
  MetricsEngine, MetricsState, MetricsAction, FlushDetail, added, collected, settled, add_event,
  collect, settle_write, write_events, release_all, metrics_step, metrics_run, max_write_attempts,
}

module _ {E : Type 0} (p : E → Bool) where
  -- How many events pass a test.
  abbrev pub count : List E → ℕ
  count [] = 0
  count (e ∷ es) = (if p e then 1 else 0) + count es

  count-append : (xs ys : List E) → count (xs ++ ys) ≡ count xs + count ys
  count-append [] ys = omega arith
  count-append (x ∷ xs) ys = omega (arith, count-append xs ys)

  abbrev pub count_offered : List (MetricsAction E) → ℕ
  count_offered [] = 0
  count_offered (added workers e ∷ actions) = (if p e then 1 else 0) + count_offered actions
  count_offered (collected ∷ actions) = count_offered actions
  count_offered (settled fails ∷ actions) = count_offered actions

  abbrev pub count_in_flight : Option (List E) → ℕ
  count_in_flight none = 0
  count_in_flight (some events) = count events

  -- Events that somebody still holds, and those that went back to the pool.
  abbrev pub count_held : MetricsState E → ℕ
  count_held s =
      count s.engine.buffer.events
      + count s.engine.retry
      + count_in_flight s.in_flight
      + count s.engine.pool

  -- An event is held once, written at most once, and then given back. Events wait for another attempt only
  -- between two flushes and after a failed one, and the buffer keeps to its capacity.
  pub record IsAccounted (offered : ℕ) (s : MetricsState E) : Type 0 where
    pub conserved : count_held s ≡ offered
    pub written : count s.engine.rows ≤ count s.engine.pool
    pub idle : is_set s.in_flight ≡ true → s.engine.retry ≡ []
    pub tries : s.engine.attempts < max_write_attempts
    pub first_try : s.engine.attempts ≡ 0 → s.engine.retry ≡ []
    pub bounded : length s.engine.buffer.events ≤ s.engine.buffer.max_capacity

  add_event-IsAccounted :
      (n : ℕ) (s : MetricsState E) (workers : Bool) (e : E)
      → IsAccounted n s
      → IsAccounted ((if p e then 1 else 0) + n) (metrics_step s (added workers e))
  unfolding metrics_step add_event append_event release_all
  add_event-IsAccounted n s workers e acc =
      let b = s.engine.buffer in
      elim (Bool-cases (leb b.max_capacity (length b.events))) [
        | inl full ↦ rw full (record {
          conserved = omega (arith, acc.conserved, count-append s.engine.pool (e ∷ []));
          written = omega (arith, acc.written, count-append s.engine.pool (e ∷ []));
          idle = acc.idle;
          tries = acc.tries;
          first_try = acc.first_try;
          bounded = acc.bounded;
        })
        | inr room ↦ rw room (record {
          conserved = omega (arith, acc.conserved, count-append b.events (e ∷ []));
          written = acc.written;
          idle = acc.idle;
          tries = acc.tries;
          first_try = acc.first_try;
          bounded = ground (arith, length-append b.events (e ∷ []));
        })
      ]

  collect-IsAccounted :
      (n : ℕ) (m : MetricsEngine E) (o : Option (List E))
      → IsAccounted n (record { engine = m; in_flight = o })
      → IsAccounted n (metrics_step (record { engine = m; in_flight = o }) collected)
  unfolding metrics_step collect drain_events
  collect-IsAccounted n m (some events) acc = acc
  collect-IsAccounted n m none acc = record {
    conserved = omega (arith, acc.conserved, count-append m.retry m.buffer.events);
    written = acc.written;
    idle = λ busy. refl;
    tries = acc.tries;
    first_try = λ none_yet. refl;
    bounded = omega arith;
  }

  settle_write-IsAccounted :
      (n : ℕ) (m : MetricsEngine E) (events : List E) (detail : FlushDetail) (fails : Bool)
      → IsAccounted n (record { engine = m; in_flight = some events })
      → IsAccounted n (record { engine = (settle_write fails events detail m).1; in_flight = none })
  unfolding settle_write release_all
  settle_write-IsAccounted n m events detail false acc = record {
    conserved = omega (arith, acc.conserved, count-append m.pool events);
    written = omega (arith, acc.written, count-append m.pool events, count-append m.rows events);
    idle = λ busy. ground arith;
    tries = omega arith;
    first_try = λ first. acc.idle refl;
    bounded = acc.bounded;
  }
  settle_write-IsAccounted n m events detail true acc =
      let waiting : count m.retry ≡ 0 = ap count (acc.idle refl) in
      elim (Bool-cases (ltb (suc m.attempts) max_write_attempts)) [
        | inl again ↦ rw again (record {
          conserved = omega (arith, acc.conserved, waiting);
          written = acc.written;
          idle = λ busy. ground arith;
          tries = ground arith;
          first_try = λ first. ground arith;
          bounded = acc.bounded;
        })
        | inr last ↦ rw last (record {
          conserved = omega (arith, acc.conserved, count-append m.pool events);
          written = omega (arith, acc.written, count-append m.pool events);
          idle = λ busy. ground arith;
          tries = omega arith;
          first_try = λ first. acc.idle refl;
          bounded = acc.bounded;
        })
      ]

  settled-IsAccounted :
      (n : ℕ) (m : MetricsEngine E) (o : Option (List E)) (fails : Bool)
      → IsAccounted n (record { engine = m; in_flight = o })
      → IsAccounted n (metrics_step (record { engine = m; in_flight = o }) (settled fails))
  unfolding metrics_step write_events
  settled-IsAccounted n m none fails acc = acc
  settled-IsAccounted n m (some []) fails acc = record {
    conserved = acc.conserved;
    written = acc.written;
    idle = λ busy. ground arith;
    tries = acc.tries;
    first_try = acc.first_try;
    bounded = acc.bounded;
  }
  settled-IsAccounted n m (some (e ∷ es)) fails acc =
      settle_write-IsAccounted n m (e ∷ es) _ fails acc

  -- Over any additions and flushes, refused ones included: each event that a request added is buffered,
  -- waits for another attempt, is being written, or went back to the pool, exactly once; what is
  -- written is given back; there are fewer than three attempts behind a batch, none waits before the
  -- first, and the buffer keeps to its capacity.
  pub metrics_run-IsAccounted :
      (actions : List (MetricsAction E)) (n : ℕ) (s : MetricsState E)
      → IsAccounted n s
      → IsAccounted (n + count_offered actions) (metrics_run s actions)
  unfolding metrics_run
  metrics_run-IsAccounted [] n s acc = subst (λ k. IsAccounted k s) (omega arith) acc
  metrics_run-IsAccounted (added workers e ∷ actions) n s acc =
      subst (λ k. IsAccounted k (metrics_run s (added workers e ∷ actions))) (omega arith)
        (metrics_run-IsAccounted actions _ _ (add_event-IsAccounted n s workers e acc))
  metrics_run-IsAccounted (collected ∷ actions) n s acc =
      metrics_run-IsAccounted actions n _ (collect-IsAccounted n s.engine s.in_flight acc)
  metrics_run-IsAccounted (settled fails ∷ actions) n s acc =
      metrics_run-IsAccounted actions n _ (settled-IsAccounted n s.engine s.in_flight fails acc)
