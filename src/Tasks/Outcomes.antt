-- ===== src/Tasks/Outcomes.antt =====
-- What every run of a TaskExecution of reaper/tasks/__init__.py keeps.
use reaper.Base.{
  ℕ, ◌+◌, ◌≡◌, refl, Bool, true, false, not, List, [], ◌∷◌, ◌++◌, if◌then◌else◌, if_elim, one,
  count, count-append, length, length-append, nat_eq, arith, ◌∙◌, sym, ap, ◌==◌,
}
use reaper.Tasks.Execution.{
  Outcome, Answer, TaskExecution, settle, submit, take_batch, answer_batch, answer_batches,
  answer_all, verdict, cancel_submissions, Event, settles, submits, takes, cancels, answers, step,
  run,
}

abbrev pub is_empty : List ℕ → Bool
is_empty [] = true
is_empty (x ∷ xs) = false

-- One outcome exactly when the execution is finished; a flush is scheduled exactly while a submission
-- waits for one.
pub record IsValid (x : TaskExecution) : Type 0 where
  pub once : length x.outcomes ≡ one x.finished
  pub scheduled : x.submission_task ≡ not (is_empty x.pending_submissions)

append_one : (xs : List ℕ) (a : ℕ) → not (is_empty (xs ++ a ∷ [])) ≡ true
append_one [] a = refl
append_one (x ∷ xs) a = refl

IsValid-settle : (o : Outcome) (s : Bool) (x : TaskExecution) → IsValid x → IsValid (settle o s x)
unfolding settle
IsValid-settle o s x v =
    if_elim IsValid x.finished _ _ (λ _. v)
      (λ open_.
        if_elim IsValid s _ _
          (λ _. record {
            once =
                length-append x.outcomes (o ∷ [])
                ∙ ap (λ n. n + 1) v.once
                ∙ ap (λ b. one b + 1) open_;
            scheduled = v.scheduled;
          })
          (λ _. v))

IsValid-step : (e : Event) (x : TaskExecution) → IsValid x → IsValid (step e x)
unfolding step submit take_batch answer_batch cancel_submissions
IsValid-step (settles o s) x v = IsValid-settle o s x v
IsValid-step (submits f) x v =
    if_elim IsValid x.finished _ _ (λ _. v)
      (λ _. record { once = v.once; scheduled = sym (append_one x.pending_submissions f) })
IsValid-step takes x v =
    if_elim IsValid x.submission_task _ _ (λ _. record { once = v.once; scheduled = refl }) (λ _. v)
IsValid-step cancels x v = record { once = v.once; scheduled = refl }
IsValid-step (answers s) x v = record { once = v.once; scheduled = v.scheduled }

-- Every run from a claimed task writes at most one outcome, and one exactly when it is finished; a
-- submission that waits always has a flush scheduled.
pub run-IsValid : (es : List Event) (x : TaskExecution) → IsValid x → IsValid (run es x)
unfolding run
run-IsValid [] x v = v
run-IsValid (e ∷ es) x v = run-IsValid es (step e x) (IsValid-step e x v)

-- The futures of a state: those that wait, those in a batch, those done.
abbrev pub flat : List (List ℕ) → List ℕ
flat [] = []
flat (xs ∷ xss) = xs ++ flat xss

abbrev pub futures : List (ℕ × Answer) → List ℕ
futures [] = []
futures (d ∷ ds) = d.0 ∷ futures ds

abbrev pub held : TaskExecution → ℕ → ℕ
held x f = count f x.pending_submissions + count f (flat x.batches) + count f (futures x.done)

-- The futures that a run of events makes: one for each submission before the outcome.
abbrev pub makes : Event → TaskExecution → ℕ → ℕ
makes (submits g) x f = if x.finished then 0 else one (g == f)
makes e x f = 0

unfoldable pub made : List Event → TaskExecution → ℕ → ℕ
made [] x f = 0
made (e ∷ es) x f = makes e x f + made es (step e x) f

count-flat :
    (f : ℕ) (xss : List (List ℕ)) (xs : List ℕ)
    → count f (flat (xss ++ xs ∷ [])) ≡ count f (flat xss) + count f xs
count-flat f [] xs = omega (arith, count-append f xs [])
count-flat f (ys ∷ xss) xs = omega (
  arith,
  count-append f ys (flat (xss ++ xs ∷ [])),
  count-append f ys (flat xss),
  count-flat f xss xs,
)

count-futures :
    (f : ℕ) (ds es : List (ℕ × Answer))
    → count f (futures (ds ++ es)) ≡ count f (futures ds) + count f (futures es)
count-futures f [] es = omega arith
count-futures f (d ∷ ds) es = omega (arith, count-futures f ds es)

count-answer_all :
    (f : ℕ) (a : Answer) (xs : List ℕ) → count f (futures (answer_all a xs)) ≡ count f xs
count-answer_all f a [] = refl
count-answer_all f a (x ∷ xs) = omega (arith, count-answer_all f a xs)

count-answer_batches :
    (f : ℕ) (a : Answer) (xss : List (List ℕ))
    → count f (flat (answer_batches a xss).0) + count f (futures (answer_batches a xss).1)
      ≡ count f (flat xss)
count-answer_batches f a [] = omega arith
count-answer_batches f a (xs ∷ xss) =
    omega (arith, count-answer_all f a xs, count-append f xs (flat xss))

held-step : (e : Event) (x : TaskExecution) (f : ℕ) → held (step e x) f ≡ held x f + makes e x f
unfolding step settle submit take_batch answer_batch cancel_submissions
held-step (settles o s) x f = ground arith
held-step (submits g) x f = ground (arith, count-append f x.pending_submissions (g ∷ []))
held-step takes x f = ground (arith, count-flat f x.batches x.pending_submissions)
held-step cancels x f = omega (
  arith,
  count-futures f x.done (answer_all Answer.cancelled x.pending_submissions),
  count-answer_all f Answer.cancelled x.pending_submissions,
)
held-step (answers s) x f = omega (
  arith,
  count-futures f x.done (answer_batches (verdict x.finished s) x.batches).1,
  count-answer_batches f (verdict x.finished s) x.batches,
)

-- Across a run no future is lost or answered twice: each one is waiting, in a batch or done, as often
-- as it was before the run and was made by it.
pub run-held :
    (es : List Event) (x : TaskExecution) (f : ℕ) → held (run es x) f ≡ held x f + made es x f
unfolding run made
run-held [] x f = omega arith
run-held (e ∷ es) x f = omega (arith, run-held es (step e x) f, held-step e x f)
