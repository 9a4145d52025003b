-- ===== src/Pool/Tests.antt =====
-- The theorems on reaper/pool.py at concrete inputs.
use reaper.Base.{List, Option, [], arith, false, none, refl, some, ℕ, ◌+◌, ◌∷◌, ◌≡◌, ◌≤◌}
use reaper.Pool.Messages.{encode_message, read_message, message, read_message-encode_message}
use reaper.Pool.Heartbeat.{HeartbeatWatch, observe, probe, Steady, begun, held, observe-dead}
use reaper.Pool.Faults.{Circuit, Fault, permanent_service_fault}
use reaper.Pool.Circuit.{record_all, record_all-shut}

abbrev watch : HeartbeatWatch
watch = record { marker = 5; unchanged_since = 10; checked_at = 13 }

given_up : observe watch 5 15 4 ≡ some (record watch { checked_at = 15 }, false)
unfolding observe probe
given_up = refl

observe-dead_example : (10 + 4 ≤ 15) × Steady 4 5 10 15 ((15, 5) ∷ (13, 5) ∷ (10, 5) ∷ [])
observe-dead_example =
    observe-dead 4 15 5 watch (record watch { checked_at = 15 }) ((13, 5) ∷ (10, 5) ∷ [])
      (held 13 (begun []) (omega arith)) given_up

abbrev circuit : Circuit
circuit = record {
  target = 2;
  service_failure_rounds = 3;
  service_fault = "builtins.ValueError:";
  service_fault_slots = 1 ∷ [];
  service_fault_round = 1;
  startup_error = none;
  failure_event = false;
  failure_errors = [];
}

abbrev fault : Fault
fault = record { gen = 2; kind = "builtins.ValueError"; code = "" }

passing : permanent_service_fault "" ≡ false
unfolding permanent_service_fault
passing = refl

record_all-shut_example : (record_all circuit (fault ∷ fault ∷ [])).failure_event ≡ false
record_all-shut_example =
    record_all-shut (fault ∷ fault ∷ []) circuit
      (record { partial = omega arith; short = λ p. omega arith }) refl (passing, (passing, tt))
      (omega arith)

-- A message of one number, whose pickle is the number.
abbrev dumps : ℕ → List ℕ
dumps v = v ∷ []

abbrev loads : List ℕ → Option (Option ℕ)
loads [] = none
loads (v ∷ vs) = some (some v)

abbrev chunk : ℕ → ℕ
chunk n = 1

encoded : encode_message dumps loads 7 ≡ some (0 ∷ 0 ∷ 0 ∷ 1 ∷ 7 ∷ [])
unfolding encode_message
encoded = refl

read_message-encode_message_example :
    read_message dumps loads chunk chunk (0 ∷ 0 ∷ 0 ∷ 1 ∷ 7 ∷ 9 ∷ []) ≡ message 7 (9 ∷ [])
read_message-encode_message_example =
    read_message-encode_message dumps loads chunk chunk 7 (0 ∷ 0 ∷ 0 ∷ 1 ∷ 7 ∷ []) (9 ∷ []) refl
      encoded
