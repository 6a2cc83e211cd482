-- ===== src/Execution/Circuit.antt =====
-- The circuit breaker that all workers of one target share: src/rag_eval/execution/circuit_breaker.py.
--
-- The clock is an argument: `now` is the value of `datetime.now(UTC)` at the call, in whole
-- milliseconds since an epoch, and `cooldown` is `cooldown_seconds` in the same unit. No method
-- awaits anything while it holds the breaker's lock, so a call is one step of the shared state;
-- `wait_for_cooldown` gives the lock up while it sleeps, and is two steps. Log lines are left out.
pub mod Laws
pub mod Opening
pub mod Probes
use rag_eval.Prelude.{
  ℕ, ◌+◌, ◌-◌, ◌≤◌, Bool, true, false, Option, none, some, List, [], ◌∷◌, leb, if◌then◌else◌,
}

-- `class CircuitState`
pub data CircuitState : Type 0 where
  closed open_circuit half_open : CircuitState

-- `class CircuitBreakerConfig`; the probe timeout is read nowhere.
pub record CircuitBreakerConfig : Type 0 where
  pub failure_threshold : ℕ
  pub cooldown : ℕ
  pub success_threshold : ℕ
  pub probe_timeout : ℕ

-- `class CircuitBreaker`, without its lock.
pub record CircuitBreaker : Type 0 where
  pub config : CircuitBreakerConfig
  pub state : CircuitState
  pub failure_count : ℕ
  pub success_count : ℕ
  pub last_failure_time : Option ℕ
  pub opened_at : Option ℕ

-- The breaker as its fields' defaults make it.
unfoldable pub new_breaker : CircuitBreakerConfig → CircuitBreaker
new_breaker config = record {
  config = config;
  state = closed;
  failure_count = 0;
  success_count = 0;
  last_failure_time = none;
  opened_at = none;
}

-- `_open_circuit`
open_breaker : ℕ → CircuitBreaker → CircuitBreaker
open_breaker now b = record b { state = open_circuit; opened_at = some now; success_count = 0 }

-- `_close_circuit`
close_breaker : CircuitBreaker → CircuitBreaker
close_breaker b = record b {
  state = closed;
  failure_count = 0;
  success_count = 0;
  opened_at = none;
}

-- The transition to HALF_OPEN, which the source writes out at each of its three places.
to_half_open : CircuitBreaker → CircuitBreaker
to_half_open b = record b { state = half_open; success_count = 0 }

-- `elapsed >= cooldown`. A clock that ran backwards gives a negative elapsed time, which is below
-- any positive cooldown; here the cooldown is added to the other side.
abbrev pub cooled : CircuitBreaker → ℕ → ℕ → Bool
cooled b now opened = leb (opened + b.config.cooldown) now

-- The open state of `can_execute`: has the cooldown elapsed?
probe_open : ℕ → Option ℕ → CircuitBreaker → CircuitBreaker × Bool
unfolding to_half_open
probe_open now none b = (b, false)
probe_open now (some opened) b = if cooled b now opened then (to_half_open b, true) else (b, false)

can_execute_in : CircuitState → ℕ → CircuitBreaker → CircuitBreaker × Bool
unfolding probe_open
can_execute_in closed now b = (b, true)
can_execute_in half_open now b = (b, true)
can_execute_in open_circuit now b = probe_open now b.opened_at b

-- `can_execute`
unfoldable pub can_execute : ℕ → CircuitBreaker → CircuitBreaker × Bool
unfolding can_execute_in
can_execute now b = can_execute_in b.state now b

record_success_in : CircuitState → CircuitBreaker → CircuitBreaker
unfolding close_breaker
record_success_in half_open b =
    let counted = record b { success_count = b.success_count + 1 } in
    if leb b.config.success_threshold counted.success_count then close_breaker counted else counted
record_success_in closed b = record b { failure_count = 0 }
record_success_in open_circuit b = b

-- `record_success`
unfoldable pub record_success : CircuitBreaker → CircuitBreaker
unfolding record_success_in
record_success b = record_success_in b.state b

-- The part of `record_failure` behind the two assignments, by the state.
trip : CircuitState → ℕ → CircuitBreaker → CircuitBreaker
unfolding open_breaker
trip half_open now b = open_breaker now b
trip closed now b = if leb b.config.failure_threshold b.failure_count then open_breaker now b else b
trip open_circuit now b = b

-- `record_failure`
unfoldable pub record_failure : ℕ → CircuitBreaker → CircuitBreaker
unfolding trip
record_failure now b =
    trip b.state now
      (record b { failure_count = b.failure_count + 1; last_failure_time = some now })

-- What `wait_for_cooldown` does before it sleeps: either it is done, or it sleeps so long.
pub data Wait : Type 0 where
  done : Wait
  sleeping : ℕ → Wait

wait_since : Option ℕ → ℕ → CircuitBreaker → CircuitBreaker × Wait
unfolding to_half_open
wait_since none now b = (b, done)
wait_since (some opened) now b =
    if cooled b now opened
    then (to_half_open b, done)
    else (b, sleeping (opened + b.config.cooldown - now))

wait_begin_in : CircuitState → ℕ → CircuitBreaker → CircuitBreaker × Wait
unfolding wait_since
wait_begin_in open_circuit now b = wait_since b.opened_at now b
wait_begin_in closed now b = (b, done)
wait_begin_in half_open now b = (b, done)

-- `wait_for_cooldown` up to its sleep.
unfoldable pub wait_begin : ℕ → CircuitBreaker → CircuitBreaker × Wait
unfolding wait_begin_in
wait_begin now b = wait_begin_in b.state now b

wait_end_in : CircuitState → CircuitBreaker → CircuitBreaker
unfolding to_half_open
wait_end_in open_circuit b = to_half_open b
wait_end_in closed b = b
wait_end_in half_open b = b

-- `wait_for_cooldown` after its sleep, on the state that it finds then.
unfoldable pub wait_end : CircuitBreaker → CircuitBreaker
unfolding wait_end_in
wait_end b = wait_end_in b.state b

-- `reset`
unfoldable pub reset : CircuitBreaker → CircuitBreaker
reset b = record b {
  state = closed;
  failure_count = 0;
  success_count = 0;
  last_failure_time = none;
  opened_at = none;
}

-- One step of the shared breaker, by whichever worker makes it.
pub data Call : Type 0 where
  ask success failure wait wake clear : Call

unfoldable pub apply_call : Call → ℕ → CircuitBreaker → CircuitBreaker
unfolding can_execute record_success record_failure wait_begin wait_end reset
apply_call Call.ask now b = (can_execute now b).0
apply_call Call.success now b = record_success b
apply_call Call.failure now b = record_failure now b
apply_call Call.wait now b = (wait_begin now b).0
apply_call Call.wake now b = wait_end b
apply_call Call.clear now b = reset b

-- An interleaving of the workers' calls, each with its time.
unfoldable pub run_calls : List (Call × ℕ) → CircuitBreaker → CircuitBreaker
run_calls [] b = b
run_calls ((c, now) ∷ cs) b = run_calls cs (apply_call c now b)
