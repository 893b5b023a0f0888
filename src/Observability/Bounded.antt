-- ===== src/Observability/Bounded.antt =====
-- services/observability_sidecar/observability_sidecar/store.py: what the store holds after any inputs.
use mathlib.Core.List.{append_assoc, append-nil}
use native.Mathlib.Decide.{dec_lt}
use user_delegated_auth_serv.Base.{
  ℕ, zero, suc, ◌-◌, ◌≤◌, ◌≡◌, refl, sym, ◌∙◌, ap, true, false, List, [], ◌∷◌, ◌++◌, map, length,
  ltb, arith, All,
}
use user_delegated_auth_serv.Observability.Redaction.{Texts}
use user_delegated_auth_serv.Observability.Redacted.{HasRedacted, redact_fields-HasRedacted}
use user_delegated_auth_serv.Observability.Sidecar.{
  AgenticTraceIngest, LogIngest, TelemetryStore, new_store, push_bounded, drop_first, append_trace,
  append_log, safe_trace, redacted,
}

-- What comes in.
pub data Input : Type 0 where
  trace : AgenticTraceIngest → Input
  log : LogIngest → Input

abbrev pub traces_in : List Input → List AgenticTraceIngest
traces_in [] = []
traces_in (trace t ∷ rest) = t ∷ traces_in rest
traces_in (log l ∷ rest) = traces_in rest

abbrev pub logs_in : List Input → List LogIngest
logs_in [] = []
logs_in (trace t ∷ rest) = logs_in rest
logs_in (log l ∷ rest) = l ∷ logs_in rest

-- `xs[n:]` and the last `n` of a list.
unfoldable pub drop {ℓ} : {A : Type ℓ} → ℕ → List A → List A
drop zero xs = xs
drop (suc n) [] = []
drop (suc n) (x ∷ xs) = drop n xs

unfoldable pub last {ℓ} : {A : Type ℓ} → ℕ → List A → List A
unfolding drop
last n xs = drop (length xs - n) xs

module _ {ℓ} {A : Type ℓ} where
  length-append-one : (xs : List A) (x : A) → length (xs ++ (x ∷ [])) ≡ suc (length xs)
  length-append-one [] x = refl
  length-append-one (y ∷ xs) x = ap suc (length-append-one xs x)

  length-drop : (n : ℕ) (xs : List A) → length (drop n xs) ≡ length xs - n
  unfolding drop
  length-drop zero xs = omega arith
  length-drop (suc n) [] = omega arith
  length-drop (suc n) (x ∷ xs) = omega (arith, length-drop n xs)

  drop-append : (n : ℕ) (xs ys : List A) → n ≤ length xs → drop n (xs ++ ys) ≡ drop n xs ++ ys
  unfolding drop
  drop-append zero xs ys h = refl
  drop-append (suc n) [] ys h = absurd (omega arith)
  drop-append (suc n) (x ∷ xs) ys h = drop-append n xs ys (omega arith)

  drop-suc : (n : ℕ) (xs : List A) → drop (suc n) xs ≡ drop_first (drop n xs)
  unfolding drop
  drop-suc zero [] = refl
  drop-suc zero (x ∷ xs) = refl
  drop-suc (suc n) [] = refl
  drop-suc (suc n) (x ∷ xs) = drop-suc n xs

  -- One more item after the last ones.
  push_bounded-last :
      (n : ℕ) (x : A) (xs : List A) → push_bounded n x (last n xs) ≡ last n (xs ++ (x ∷ []))
  unfolding push_bounded last
  push_bounded-last n x xs = elim (dec_lt (length xs) n) [
    | yes room ↦
        (let none_over : length xs - n ≡ 0 = omega arith in
          let none_over' : length (xs ++ (x ∷ [])) - n ≡ 0 =
            omega (arith, length-append-one xs x) in
          let fits : ltb n (suc (length xs)) ≡ false = ground arith in
          rw (none_over, none_over', fits) refl)
    | no full ↦
        (let k = length xs - n in
          let count : length (drop k xs) ≡ n = omega (arith, length-drop k xs) in
          let over : ltb n (suc n) ≡ true = ground arith in
          let more : length (xs ++ (x ∷ [])) - n ≡ suc k = omega (arith, length-append-one xs x) in
          rw (count, over, more)
            (ap drop_first (sym (drop-append k xs (x ∷ []) (omega arith)))
              ∙ sym (drop-suc k (xs ++ (x ∷ [])))))
  ]

  drop-of_nil : (n : ℕ) → drop {A = A} n [] ≡ []
  unfolding drop
  drop-of_nil zero = refl
  drop-of_nil (suc n) = refl

  last-of_nil : (n : ℕ) → last {A = A} n [] ≡ []
  unfolding last
  last-of_nil n = drop-of_nil (0 - n)

  length-last : (n : ℕ) (xs : List A) → length (last n xs) ≤ n
  unfolding last
  length-last n xs = omega (arith, length-drop (length xs - n) xs)

module _ {ℓ κ} {A : Type ℓ} (P : A → Type κ) where
  All-drop : (n : ℕ) (xs : List A) → All P xs → All P (drop n xs)
  unfolding drop
  All-drop zero xs h = h
  All-drop (suc n) [] h = tt
  All-drop (suc n) (x ∷ xs) h = All-drop n xs h.1

  All-last : (n : ℕ) (xs : List A) → All P xs → All P (last n xs)
  unfolding last
  All-last n xs h = All-drop (length xs - n) xs h

module _ (texts : Texts) where
  -- The store after the inputs.
  unfoldable pub take_in : List Input → TelemetryStore → TelemetryStore
  unfolding append_trace append_log
  take_in [] store = store
  take_in (trace t ∷ rest) store = take_in rest (append_trace texts t store).1
  take_in (log l ∷ rest) store = take_in rest (append_log texts l store).1

  take_in_lem :
      (inputs : List Input) (store : TelemetryStore) (ts : List AgenticTraceIngest)
      (ls : List LogIngest)
      → store.traces ≡ last store.max_items ts
      → store.logs ≡ last store.max_items ls
      → ((take_in inputs store).traces
          ≡ last store.max_items (ts ++ map (safe_trace texts) (traces_in inputs)))
        × ((take_in inputs store).logs
            ≡ last store.max_items (ls ++ map (redacted texts) (logs_in inputs)))
  unfolding take_in append_trace append_log
  take_in_lem [] store ts ls h k = (rw (append-nil ts) h, rw (append-nil ls) k)
  take_in_lem (trace t ∷ rest) store ts ls h k =
      let (traces, logs) =
        take_in_lem rest (append_trace texts t store).1 (ts ++ (safe_trace texts t ∷ [])) ls
          (rw h (push_bounded-last store.max_items (safe_trace texts t) ts)) k in
      (
        rw (← append_assoc ts (safe_trace texts t ∷ []) (map (safe_trace texts) (traces_in rest)))
            traces,
        logs,
      )
  take_in_lem (log l ∷ rest) store ts ls h k =
      let (traces, logs) =
        take_in_lem rest (append_log texts l store).1 ts (ls ++ (redacted texts l ∷ [])) h
          (rw k (push_bounded-last store.max_items (redacted texts l) ls)) in
      (
        traces,
        rw (← append_assoc ls (redacted texts l ∷ []) (map (redacted texts) (logs_in rest))) logs,
      )

  abbrev TraceIsRedacted : AgenticTraceIngest → Type 0
  TraceIsRedacted t = HasRedacted texts t.event.attributes

  abbrev LogIsRedacted : LogIngest → Type 0
  LogIsRedacted l = HasRedacted texts l.attributes

  safe_traces : (ts : List AgenticTraceIngest) → All TraceIsRedacted (map (safe_trace texts) ts)
  unfolding safe_trace
  safe_traces [] = tt
  safe_traces (t ∷ ts) = (redact_fields-HasRedacted texts t.event.attributes, safe_traces ts)

  safe_logs : (ls : List LogIngest) → All LogIsRedacted (map (redacted texts) ls)
  unfolding redacted
  safe_logs [] = tt
  safe_logs (l ∷ ls) = (redact_fields-HasRedacted texts l.attributes, safe_logs ls)

  -- What the store holds after some inputs.
  pub record IsBounded (max_items : ℕ) (inputs : List Input) (store : TelemetryStore) : Type 0 where
    pub traces_are_last : store.traces ≡ last max_items (map (safe_trace texts) (traces_in inputs))
    pub logs_are_last : store.logs ≡ last max_items (map (redacted texts) (logs_in inputs))
    pub trace_bound : length store.traces ≤ max_items
    pub log_bound : length store.logs ≤ max_items
    pub safe_traces : All TraceIsRedacted store.traces
    pub safe_logs : All LogIsRedacted store.logs

  -- After any traces and logs, a new store holds the last `max_items` of the traces and of the logs, in
  -- order, and no more; in what it holds, at every depth of the attributes, a sensitive key has the
  -- value `[REDACTED]`.
  pub take_in-IsBounded :
      (max_items : ℕ) (inputs : List Input)
      → IsBounded max_items inputs (take_in inputs (new_store max_items))
  take_in-IsBounded max_items inputs =
      let (traces, logs) =
        take_in_lem inputs (new_store max_items) [] [] (sym (last-of_nil max_items))
          (sym (last-of_nil max_items)) in
      record {
        traces_are_last = traces;
        logs_are_last = logs;
        trace_bound = rw traces (length-last max_items _);
        log_bound = rw logs (length-last max_items _);
        safe_traces =
            rw traces (All-last TraceIsRedacted max_items _ (safe_traces (traces_in inputs)));
        safe_logs = rw logs (All-last LogIsRedacted max_items _ (safe_logs (logs_in inputs)));
      }
