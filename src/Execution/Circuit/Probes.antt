-- ===== src/Execution/Circuit/Probes.antt =====
-- The half-open breaker of src/rag_eval/execution/circuit_breaker.py.
use rag_eval.Prelude.{
  ℕ, zero, suc, ◌+◌, ◌<◌, ◌≡◌, Bool, true, false, none, some, List, [], ◌∷◌, arith, refl,
}
use rag_eval.Execution.Circuit.{
  CircuitBreaker, closed, half_open, sleeping, can_execute, record_success, record_failure,
  wait_begin, wait_end,
}

-- `n` successes, one after another.
unfoldable pub successes : ℕ → CircuitBreaker → CircuitBreaker
successes zero b = b
successes (suc n) b = successes n (record_success b)

probe_below :
    (b : CircuitBreaker)
    → b.state ≡ half_open
    → b.success_count + 1 < b.config.success_threshold
    → ((record_success b).state ≡ half_open)
      × ((record_success b).success_count ≡ b.success_count + 1)
      × ((record_success b).config ≡ b.config)
unfolding record_success
probe_below b h l = ground arith

probe_last :
    (b : CircuitBreaker)
    → b.state ≡ half_open
    → b.success_count + 1 ≡ b.config.success_threshold
    → ((record_success b).state ≡ closed)
      × ((record_success b).failure_count ≡ 0)
      × ((record_success b).opened_at ≡ none)
unfolding record_success
probe_last b h l = ground arith

-- A half-open breaker closes at the probe that completes its success threshold, when every probe
-- succeeds: it is then closed with no failures counted and no opening time.
pub probes_close :
    (n : ℕ) (b : CircuitBreaker)
    → b.state ≡ half_open
    → b.success_count + n + 1 ≡ b.config.success_threshold
    → ((successes (suc n) b).state ≡ closed)
      × ((successes (suc n) b).failure_count ≡ 0)
      × ((successes (suc n) b).opened_at ≡ none)
unfolding successes
probes_close zero b h e = probe_last b h (omega arith)
probes_close (suc n) b h e =
    let (still, counted, same) = probe_below b h (omega arith) in
    probes_close n (record_success b) still (rw (counted, same) (omega arith))

-- One failed probe reopens a half-open breaker at once, whatever the failure threshold is; the
-- cooldown starts anew and the next request is refused until it has passed.
pub failed_probe_reopens :
    (now later : ℕ) (b : CircuitBreaker)
    → b.state ≡ half_open
    → later < now + b.config.cooldown
    → ((record_failure now b).opened_at ≡ some now)
      × ((record_failure now b).success_count ≡ 0)
      × (can_execute later (record_failure now b) ≡ (record_failure now b, false))
unfolding record_failure can_execute
failed_probe_reopens now later b h l = ground arith

-- The answers to requests at the times of a list.
unfoldable pub ask_all : List ℕ → CircuitBreaker → CircuitBreaker × List Bool
ask_all [] b = (b, [])
ask_all (now ∷ times) b =
    let (b', answer) = can_execute now b in
    let (b'', answers) = ask_all times b' in (b'', answer ∷ answers)

abbrev pub trues : List ℕ → List Bool
trues [] = []
trues (t ∷ ts) = true ∷ trues ts

half_open-can_execute :
    (now : ℕ) (b : CircuitBreaker) → b.state ≡ half_open → can_execute now b ≡ (b, true)
unfolding can_execute
half_open-can_execute now b h = ground arith

-- A half-open breaker lets every request through, however many come before the first result.
pub half_open_unlimited :
    (times : List ℕ) (b : CircuitBreaker) → b.state ≡ half_open → ask_all times b ≡ (b, trues times)
unfolding ask_all
half_open_unlimited [] b h = refl
half_open_unlimited (now ∷ times) b h =
    rw (half_open-can_execute now b h) (rw (half_open_unlimited times b h))

-- A worker that is told to sleep from an open breaker is let through when it wakes, if nothing
-- else has happened: it wakes no earlier than the cooldown's end, and the breaker is half-open.
pub wait_for_cooldown_passes :
    (now n : ℕ) (b : CircuitBreaker)
    → (wait_begin now b).1 ≡ sleeping n
    → ((wait_begin now b).0 ≡ b)
      × ((can_execute (now + n) b).1 ≡ true)
      × ((wait_end b).state ≡ half_open)
      × ((wait_end b).success_count ≡ 0)
unfolding wait_begin can_execute wait_end
wait_for_cooldown_passes now n b h = ground arith
