-- ===== src/Pool/Faults.antt =====
-- The circuit breaker of SkeletonPool in reaper/pool.py: record_service_fault, open_circuit,
-- clear_service_faults and the two classifications. The reason of an opened circuit is a value in
-- place of the formatted message.
use Prim.Native.Char.{code}
use Prim.Native.String
use text.Mathlib.Text.{starts_with}
use reaper.Base.{
  ℕ, suc, String, Bool, true, false, ◌||◌, Option, some, List, [], ◌∷◌, ◌++◌, if◌then◌else◌, ◌==◌,
  nat_eq, string_eq, ltb, leb, contains, length,
}

abbrev pub any_prefix : List String → String → Bool
any_prefix [] s = false
any_prefix (p ∷ ps) s = starts_with s p || any_prefix ps s

abbrev pub permanent_sqlstate_classes : List String
permanent_sqlstate_classes = "28" ∷ "42" ∷ []

abbrev pub permanent_sqlstates : List String
permanent_sqlstates = "42501" ∷ []

abbrev pub transient_sqlstate_classes : List String
transient_sqlstate_classes = "08" ∷ "40" ∷ "53" ∷ "55" ∷ "57" ∷ []

abbrev pub transient_exception_names : List String
transient_exception_names =
    "ConnectionError" ∷ "ConnectionRefusedError" ∷ "ConnectionResetError" ∷ "OSError"
    ∷ "TimeoutError" ∷ []

unfoldable pub permanent_service_fault : String → Bool
permanent_service_fault code =
    any_prefix permanent_sqlstate_classes code || contains permanent_sqlstates code

-- `rpartition(".")[2]`: what follows the last dot of `rest`, and `last` if there is none.
unfoldable pub after_last_dot : String → String → String
after_last_dot String.[] last = last
after_last_dot (String.◌∷◌ c rest) last =
    after_last_dot rest (if code c == b'.' then rest else last)

unfoldable pub transient_service_fault : String → String → Bool
transient_service_fault kind code =
    contains transient_exception_names (after_last_dot kind kind)
    || any_prefix transient_sqlstate_classes code

pub data Reason : Type 0 where
  permanent : String → Reason
  repeated : String → ℕ → Reason
  descendants : ℕ → Reason

pub record Circuit : Type 0 where
  pub target : ℕ
  pub service_failure_rounds : ℕ
  pub service_fault : String
  pub service_fault_slots : List ℕ
  pub service_fault_round : ℕ
  pub startup_error : Option Reason
  pub failure_event : Bool
  pub failure_errors : List Reason

-- The fault that a slot of a generation reports.
pub record Fault : Type 0 where
  pub gen : ℕ
  pub kind : String
  pub code : String

abbrev pub signature : Fault → String
signature f = String.◌++◌ f.kind (String.◌++◌ ":" f.code)

unfoldable pub clear_service_faults : Circuit → Circuit
clear_service_faults c = record c {
  service_fault = "";
  service_fault_slots = [];
  service_fault_round = 0;
}

unfoldable pub open_circuit : Circuit → Reason → Circuit
open_circuit c reason = if c.failure_event then c else record c {
  startup_error = some reason;
  failure_event = true;
  failure_errors = c.failure_errors ++ reason ∷ [];
}

-- set.add
abbrev pub add : ℕ → List ℕ → List ℕ
add g gs = if contains gs g then gs else gs ++ g ∷ []

-- A full round: all slots have reported the fault.
unfoldable pub end_round : Circuit → String → Circuit
end_round c sig =
    let round = suc c.service_fault_round in
    let c' = record c { service_fault_slots = []; service_fault_round = round } in
    if leb c.service_failure_rounds round then open_circuit c' (repeated sig round) else c'

-- The fault noted under its signature; another signature starts a new run.
abbrev pub counted : Circuit → Fault → Circuit
counted c f =
    let same = signature f == c.service_fault in
    record c {
      service_fault = signature f;
      service_fault_slots = add f.gen (if same then c.service_fault_slots else []);
      service_fault_round = if same then c.service_fault_round else 0;
    }

-- A fault that is neither permanent nor transient.
unfoldable pub count_fault : Circuit → Fault → Circuit
count_fault c f =
    let d = counted c f in
    if ltb (length d.service_fault_slots) c.target then d else end_round d (signature f)

unfoldable pub record_service_fault : Circuit → Fault → Circuit
record_service_fault c f =
    if permanent_service_fault f.code
    then open_circuit c (permanent (signature f))
    else if transient_service_fault f.kind f.code
    then c
    else count_fault c f
