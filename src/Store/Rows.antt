-- ===== src/Store/Rows.antt =====
-- What the statements ask of the tables of reaper/schema.sql.
use reaper.Base.{
  ℕ, ◌+◌, String, Bool, false, not, ◌&&◌, ◌||◌, Option, none, some, List, [], ◌∷◌, one, ◌==◌,
  string_eq, if◌then◌else◌,
}
use reaper.Store.Types.{PromiseRow, TaskRow, WaitRow, is_pending, is_some}

-- A row of a list that meets a test.
abbrev pub any {ℓ} : {A : Type ℓ} → (A → Bool) → List A → Bool
any test [] = false
any test (x ∷ xs) = test x || any test xs

abbrev pub keep {ℓ} : {A : Type ℓ} → (A → Bool) → List A → List A
keep test [] = []
keep test (x ∷ xs) = if test x then x ∷ keep test xs else keep test xs

-- The rows of a list that meet a test.
abbrev pub tally {ℓ} : {A : Type ℓ} → (A → Bool) → List A → ℕ
tally test [] = 0
tally test (x ∷ xs) = one (test x) + tally test xs

-- A promise that stands in the table; one that is pending there; a pending call, and a pending timer.
unfoldable pub known : List PromiseRow → String → Bool
known ps a = any (λ p. p.id == a) ps

unfoldable pub pending : List PromiseRow → String → Bool
pending ps a = any (λ p. p.id == a && is_pending p.state) ps

unfoldable pub pending_call : List PromiseRow → String → Bool
pending_call ps a = any (λ p. p.id == a && (is_pending p.state && not (is_some p.due_at))) ps

unfoldable pub pending_timer : List PromiseRow → String → Bool
pending_timer ps a = any (λ p. p.id == a && (is_pending p.state && is_some p.due_at)) ps

unfoldable pub find_promise : List PromiseRow → String → Option PromiseRow
find_promise [] a = none
find_promise (p ∷ ps) a = if p.id == a then some p else find_promise ps a

unfoldable pub has_task : List TaskRow → String → Bool
has_task ts a = any (λ t. t.promise_id == a) ts

-- The waits of a waiter whose awaited promise meets a test.
unfoldable pub awaiting : (String → Bool) → List WaitRow → String → ℕ
awaiting test ws a = tally (λ w. w.waiter_id == a && test w.awaited_id) ws
