-- ===== src/Reconciler/Breaker.antt =====
-- The circuit breaker's columns, as the two UPDATE statements of reconcileOnce compute them, and
-- circuitRetryBackoff.
use agentic_paasd.Prelude.{
  ℕ, ◌+◌, ◌-◌, Bool, true, false, ◌&&◌, Option, none, some, ltb, leb, ◌==◌, if◌then◌else◌,
}
use agentic_paasd.Store.{Service, Status, Reason}

-- Length of the crash window, in seconds.
abbrev pub window : ℕ
window = 600

-- crash_window_start IS NULL OR (now - crash_window_start) >= 600
unfoldable pub window_over : ℕ → Option ℕ → Bool
window_over now none = true
window_over now (some start) = leb window (now - start)

-- crash_window_start IS NOT NULL AND (now - crash_window_start) < 600
unfoldable pub in_window : ℕ → Option ℕ → Bool
in_window now none = false
in_window now (some start) = ltb (now - start) window

-- crash_window_start IS NOT NULL AND (now - crash_window_start) >= 600
unfoldable pub window_expired : ℕ → Option ℕ → Bool
window_expired now none = false
window_expired now (some start) = leb window (now - start)

-- Step 1: the crash window and the count.
unfoldable pub crash_columns : ℕ → Reason → Service → Service
unfolding window_over
crash_columns now reason s = record s {
  status = Status.crashed;
  crash_window_start =
      (if window_over now s.crash_window_start then some now else s.crash_window_start);
  crash_count = (if window_over now s.crash_window_start then 1 else s.crash_count + 1);
  last_crashed_at = some now;
  last_error = reason;
  updated_at = now;
}

-- crash_count >= 5 within the window
unfoldable pub must_open : ℕ → Service → Bool
unfolding in_window
must_open now s = leb 5 s.crash_count && in_window now s.crash_window_start

-- Step 2: the circuit, from the columns of step 1.
unfoldable pub circuit_columns : ℕ → ℕ → Service → Service
unfolding must_open window_expired
circuit_columns now retry_at s = record s {
  circuit_open =
      (if must_open now s
        then true
        else if window_expired now s.crash_window_start
        then false
        else s.circuit_open);
  circuit_retry_at = (if must_open now s then some retry_at else s.circuit_retry_at);
  circuit_open_count = (if must_open now s then s.circuit_open_count + 1 else s.circuit_open_count);
}

-- How long to wait before an open circuit is tried again.
unfoldable pub circuit_retry_backoff : ℕ → ℕ
circuit_retry_backoff open_count =
    if leb open_count 1 then 1800 else if open_count == 2 then 3600 else 14400

-- The columns that the auto-recovery writes.
unfoldable pub recovery_columns : ℕ → Service → Service
recovery_columns now s = record s {
  circuit_open = false;
  crash_count = 0;
  crash_window_start = none;
  circuit_retry_at = none;
  status = Status.stopped;
  updated_at = now;
}

-- circuit_open = 1 AND circuit_retry_at IS NOT NULL AND circuit_retry_at <= now
unfoldable pub is_due : ℕ → Service → Bool
is_due now s = s.circuit_open && elim s.circuit_retry_at [ none ↦ false | some t ↦ leb t now ]
