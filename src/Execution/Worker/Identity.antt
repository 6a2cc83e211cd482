-- ===== src/Execution/Worker/Identity.antt =====
-- Under which identity the worker of src/rag_eval/execution/worker.py sends a request again.
use rag_eval.Prelude.{
  ℕ, suc, ◌+◌, ◌-◌, ◌<◌, ◌≡◌, ◌⊎◌, Bool, true, false, some, List, [], ◌∷◌, eq_iff, refl, arith,
  Option-cases, inl, inr,
}
use rag_eval.Execution.Circuit.{CircuitBreaker}
use rag_eval.Execution.Errors.{ErrorRecord}
use rag_eval.Execution.Store.{Attempt, CaseStore, latest_attempt, highest}
use rag_eval.Execution.Store.Laws.{latest_attempt-append, update_attempt-append}
use rag_eval.Execution.Attempts.{
  RequestIdentity, Chosen, Refusal, refused, is_taken, persist_attempt_before_call, chosen,
  choose_identity, begun, persist_failed_attempt, running_attempt, failed_row,
}
use rag_eval.Execution.Worker.{
  Surroundings, Run, integrity_error, replay_refused, call_with, retry_loop, execute_with_retry,
  wait_for_breaker,
}

-- A replay that goes ahead is the same logical operation as the attempt before: it has that
-- attempt's request id, its idempotency key and its canonical hash, which is also the hash of the
-- request that would be sent now.
pub replay_same_operation :
    (a : Attempt) (fresh i : RequestIdentity)
    → choose_identity true (some a) fresh ≡ chosen i
    → (i.request_id ≡ a.request_id)
      × (some i.idempotency_key ≡ a.idempotency_key)
      × (some i.canonical_request_hash ≡ a.canonical_request_hash)
      × (i.canonical_request_hash ≡ fresh.canonical_request_hash)
unfolding choose_identity
replay_same_operation a fresh i h = elim (Option-cases a.canonical_request_hash) [
  | inl e ↦ ground arith
  | inr (hash, e) ↦ elim (Option-cases a.idempotency_key) [
    | inl k ↦ ground (arith, eq_iff fresh.canonical_request_hash hash)
    | inr (key, k) ↦ ground (arith, eq_iff fresh.canonical_request_hash hash)
  ]
]

module _ {Observation : Type 0} where
  failed-latest :
      (now n : ℕ) (error : ErrorRecord) (will_retry : Bool) (i : RequestIdentity)
      (s : CaseStore Observation)
      → highest s.attempts < n
      → latest_attempt (persist_failed_attempt now n error will_retry (begun now n i s)).attempts
        ≡ some (failed_row now will_retry error.message (running_attempt now n i))
  unfolding persist_failed_attempt begun
  failed-latest now n error will_retry i s h =
      let a = running_attempt now n i in
      rw (update_attempt-append s.attempts a (failed_row now will_retry error.message) h)
        (latest_attempt-append s.attempts (failed_row now will_retry error.message a) h)

  -- After a failed attempt that is to be retried, the retry of an idempotent target is sent under
  -- the very identity of that attempt, provided that the request still hashes to the same value; on
  -- any other target it is sent under the fresh identity.
  pub retry_identity :
      (now n : ℕ) (error : ErrorRecord) (i fresh : RequestIdentity) (s : CaseStore Observation)
      → highest s.attempts < n
      → fresh.canonical_request_hash ≡ i.canonical_request_hash
      → let previous =
          latest_attempt (persist_failed_attempt now n error true (begun now n i s)).attempts in
        (choose_identity true previous fresh ≡ chosen i)
        × (choose_identity false previous fresh ≡ chosen fresh)
  unfolding choose_identity failed_row
  retry_identity now n error i fresh s h same =
      rw (failed-latest now n error true i s h)
        (ground (arith, eq_iff fresh.canonical_request_hash i.canonical_request_hash), refl)

-- An attempt that is recorded keeps its request id taken.
latest-is_taken :
    (n : ℕ) (attempts : List Attempt) (a : Attempt)
    → latest_attempt attempts ≡ some a
    → is_taken n a.request_id attempts ≡ true
unfolding latest_attempt is_taken
latest-is_taken n [] a h = absurd (ground arith)
latest-is_taken n (c ∷ rest) a h = elim (Option-cases (latest_attempt rest)) [
  | inl none_later ↦
      ground (arith, eq_iff c.request_id c.request_id, eq_iff a.request_id c.request_id)
  | inr (b, later) ↦
      ground (arith, latest-is_taken n rest b later, eq_iff a.request_id c.request_id)
]

module _ {Response Observation : Type 0} (env : Surroundings Response Observation) where
  refused_or_taken :
      (n : ℕ) (c : Chosen) (a : Attempt) (s : CaseStore Observation) (b : CircuitBreaker)
      (again : CaseStore Observation → CircuitBreaker → Run Observation)
      → latest_attempt s.attempts ≡ some a
      → ((i : RequestIdentity) → c ≡ chosen i → i.request_id ≡ a.request_id)
      → ((call_with env n c s b again).1 ≡ s)
        × (((call_with env n c s b again).0 ≡ integrity_error n)
            ⊎ ((why : Refusal) × ((call_with env n c s b again).0 ≡ replay_refused why)))
  unfolding call_with persist_attempt_before_call
  refused_or_taken n (refused why) a s b again l same = (refl, inr (why, refl))
  refused_or_taken n (chosen i) a s b again l same =
      let taken : is_taken n i.request_id s.attempts ≡ true =
        rw (same i refl) (latest-is_taken n s.attempts a l) in
      rw (taken, call_with) (refl, inl refl)

  -- An idempotent replay of the case's latest attempt never reaches the target: it is refused, or the
  -- row that is to record it is, since it would carry the request id of that attempt a second time.
  -- The durable state, with the number of requests that have been sent, stays as it is.
  pub replay_sends_nothing :
      (initial : ℕ) (a : Attempt) (s : CaseStore Observation) (b : CircuitBreaker)
      → latest_attempt s.attempts ≡ some a
      → ((execute_with_retry env initial (some a) true s b).1 ≡ s)
        × (((execute_with_retry env initial (some a) true s b).0 ≡ integrity_error (initial + 1))
            ⊎ ((why : Refusal) × ((execute_with_retry env initial (some a) true s b).0
                  ≡ replay_refused why)))
  unfolding execute_with_retry retry_loop
  replay_sends_nothing initial a s b l =
      let n = initial + 1 in
      let one_more : env.config.max_attempts - initial + 1
          ≡ suc (env.config.max_attempts - initial) =
        omega arith in
      rw (one_more, execute_with_retry, retry_loop)
        (refused_or_taken n (choose_identity true (some a) (env.fresh n)) a s
          (wait_for_breaker env.meanwhile (env.now n) b) _ l
          (λ i e. (replay_same_operation a (env.fresh n) i e).0))
