-- ===== src/Pool/Answers.antt =====
-- Every job's future is completed once, by resolve or fail of reaper/pool.py.
use reaper.Base.{
  ℕ, zero, suc, ◌≤◌, ◌≡◌, refl, String, Bool, true, false, Option, none, some, List, [], ◌∷◌, count,
  count-append, ◌∙◌, ◌⊎◌, subst, sym, ◌==◌, string_eq, arith, inl, inr,
}
use reaper.Base.Dict.{Dict, get, remove, keys}
use reaper.Control.Types.{EffectKind, ControlEvent, ControlEffect, ReaperCore}
use reaper.Control.Effects.{ended, ended_job, listed}
use reaper.Control.Core.{jobs}
use reaper.Control.Histories.{Reached, submitted, Reached-answered}
use reaper.Pool.Futures.{
  Answer, gives, Futures, job_of, note_of, complete, resolve, fault_of, fail, answer, answer_all,
}

-- How often a job's future was completed.
abbrev pub completions : String → Futures → ℕ
completions j p = count j (keys p.completed)

-- A job whose future waits, and one whose future has been completed.
pub record IsOpen (j : String) (p : Futures) : Type 0 where
  pub there : get p.jobs j ≡ some false
  pub sole : count j (keys p.jobs) ≤ 1
  pub never : completions j p ≡ 0

pub record IsOver (j : String) (p : Futures) : Type 0 where
  pub gone : get p.jobs j ≡ none
  pub once : completions j p ≡ 1

pub get-absent : (d : Dict String Bool) (j : String) → count j (keys d) ≡ 0 → get d j ≡ none
get-absent [] j h = refl
get-absent ((k, b) ∷ d) j h =
    ground (arith, get-absent d j, string_eq.agrees k j, string_eq.agrees j k)

pub get-remove-other :
    (d : Dict String Bool) (k j : String) → (k == j) ≡ false → get (remove d k) j ≡ get d j
get-remove-other [] k j h = refl
get-remove-other ((i, b) ∷ d) k j h = ground (
  arith,
  get-remove-other d k j h,
  string_eq.agrees i k,
  string_eq.agrees i j,
  string_eq.agrees k j,
)

pub get-remove-same :
    (d : Dict String Bool) (j : String) → count j (keys d) ≤ 1 → get (remove d j) j ≡ none
get-remove-same [] j h = refl
get-remove-same ((i, b) ∷ d) j h =
    ground (arith, get-remove-same d j, get-absent d j, string_eq.agrees i j, string_eq.agrees j i)

pub count-remove :
    (d : Dict String Bool) (k j : String) → count j (keys (remove d k)) ≤ count j (keys d)
count-remove [] k j = omega arith
count-remove ((i, b) ∷ d) k j = ground (arith, count-remove d k j)

pub get-remove-none :
    (d : Dict String Bool) (k j : String) → get d j ≡ none → get (remove d k) j ≡ none
get-remove-none [] k j h = refl
get-remove-none ((i, b) ∷ d) k j h =
    ground (arith, get-remove-none d k j, string_eq.agrees i k, string_eq.agrees i j)

complete-IsOver :
    (o : Option Bool) (k : String) (a : Answer) (j : String) (p : Futures)
    → get p.jobs k ≡ o
    → IsOver j p
    → IsOver j (complete o k a p)
complete-IsOver none k a j p e h = record {
  gone = get-remove-none p.jobs k j h.gone;
  once = h.once;
}
complete-IsOver (some true) k a j p e h = record {
  gone = get-remove-none p.jobs k j h.gone;
  once = h.once;
}
complete-IsOver (some false) k a j p e h = record {
  gone = get-remove-none p.jobs k j h.gone;
  once = ground (arith, h.once, h.gone, e, string_eq.agrees k j);
}

complete-other :
    (o : Option Bool) (k : String) (a : Answer) (j : String) (p : Futures)
    → (k == j) ≡ false
    → IsOpen j p
    → IsOpen j (complete o k a p)
complete-other o k a j p e h = go o
  where
    there : get (remove p.jobs k) j ≡ some false
    there = get-remove-other p.jobs k j e ∙ h.there

    sole : count j (keys (remove p.jobs k)) ≤ 1
    sole = omega (arith, count-remove p.jobs k j, h.sole)

    go : (o : Option Bool) → IsOpen j (complete o k a p)
    go none = record { there = there; sole = sole; never = h.never }
    go (some true) = record { there = there; sole = sole; never = h.never }
    go (some false) = record { there = there; sole = sole; never = ground (arith, h.never, e) }

complete-same :
    (a : Answer) (j : String) (p : Futures) → IsOpen j p → IsOver j (complete (get p.jobs j) j a p)
complete-same a j p h = rw (h.there) (record {
  gone = get-remove-same p.jobs j h.sole;
  once = ground (arith, h.never, string_eq.agrees j j);
})

-- An effect leaves the futures, or it answers one.
Does : ControlEffect → Futures → Type 0
Does e p =
    ((answer e p ≡ p) × (ended_job e ≡ []))
    ⊎ ((a : Answer) × ((answer e p ≡ complete (get p.jobs (job_of e)) (job_of e) a p)
          × (ended_job e ≡ listed e.job)))

Does-kind : (k : EffectKind) (e : ControlEffect) (p : Futures) → e.kind ≡ k → Does e p
unfolding Does answer resolve fail
Does-kind EffectKind.resolve e p h =
    inr (gives (note_of p (job_of e)).value, (rw (answer, h) refl, rw h refl))
Does-kind EffectKind.fail e p h =
    inr (fault_of e.reason (note_of p (job_of e)), (rw (answer, h) refl, rw h refl))
Does-kind k e p h = inl (rw (answer, h) refl, rw h refl)

job-far :
    (j : String) (o : Option String)
    → ("" == j) ≡ false
    → count j (listed o) ≡ 0
    → (elim o [ none ↦ "" | some job ↦ job ] == j) ≡ false
job-far j none empty h = empty
job-far j (some job) empty h = ground (arith, h)

job-here :
    (j : String) (o : Option String)
    → 1 ≤ count j (listed o)
    → elim o [ none ↦ "" | some job ↦ job ] ≡ j
job-here j none h = absurd (omega (arith, h))
job-here j (some job) h = ground (arith, h, string_eq.agrees job j)

answer-IsOver : (e : ControlEffect) (j : String) (p : Futures) → IsOver j p → IsOver j (answer e p)
unfolding Does
answer-IsOver e j p h = elim (Does-kind e.kind e p refl) [
  | inl same ↦ subst (IsOver j) (sym same.0) h
  | inr (a, done) ↦
      subst (IsOver j) (sym done.0)
        (complete-IsOver (get p.jobs (job_of e)) (job_of e) a j p refl h)
]

answer-IsOpen :
    (e : ControlEffect) (j : String) (p : Futures)
    → ("" == j) ≡ false
    → count j (ended_job e) ≡ 0
    → IsOpen j p
    → IsOpen j (answer e p)
unfolding Does
answer-IsOpen e j p named unended h = elim (Does-kind e.kind e p refl) [
  | inl same ↦ subst (IsOpen j) (sym same.0) h
  | inr (a, done) ↦ subst (IsOpen j) (sym done.0) (
      complete-other (get p.jobs (job_of e)) (job_of e) a j p
        (job-far j e.job named (subst (λ l. count j l ≡ 0) done.1 unended)) h)
]

answer-once :
    (e : ControlEffect) (j : String) (p : Futures)
    → 1 ≤ count j (ended_job e)
    → IsOpen j p
    → IsOver j (answer e p)
unfolding Does
answer-once e j p some_end h = elim (Does-kind e.kind e p refl) [
  | inl same ↦ absurd (omega (arith, subst (λ l. 1 ≤ count j l) same.1 some_end))
  | inr (a, done) ↦
      let here : job_of e ≡ j = job-here j e.job (subst (λ l. 1 ≤ count j l) done.1 some_end) in
      subst (IsOver j) (sym done.0)
        (subst (λ k. IsOver j (complete (get p.jobs k) k a p)) (sym here) (complete-same a j p h))
]

zero-cases : (n : ℕ) → (n ≡ 0) ⊎ (1 ≤ n)
zero-cases zero = inl refl
zero-cases (suc n) = inr (omega arith)

pub answer_all-IsOver :
    (es : List ControlEffect) (j : String) (p : Futures) → IsOver j p → IsOver j (answer_all es p)
unfolding answer_all
answer_all-IsOver [] j p h = h
answer_all-IsOver (e ∷ es) j p h = answer_all-IsOver es j (answer e p) (answer-IsOver e j p h)

-- A future that waits is completed once when an effect answers its job, and waits on otherwise.
pub answer_all-cases :
    (es : List ControlEffect) (j : String) (p : Futures)
    → ("" == j) ≡ false
    → IsOpen j p
    → ((count j (ended es) ≡ 0) × IsOpen j (answer_all es p))
      ⊎ ((1 ≤ count j (ended es)) × IsOver j (answer_all es p))
unfolding answer_all
answer_all-cases [] j p named h = inl (refl, h)
answer_all-cases (e ∷ es) j p named h = elim (zero-cases (count j (ended_job e))) [
  | inr here ↦ inr (
    omega (arith, here, count-append j (ended_job e) (ended es)),
    answer_all-IsOver es j (answer e p) (answer-once e j p here h),
  )
  | inl unended ↦
      elim (answer_all-cases es j (answer e p) named (answer-IsOpen e j p named unended h)) [
        | inl rest ↦
            inl (omega (arith, unended, rest.0, count-append j (ended_job e) (ended es)), rest.1)
        | inr rest ↦ inr (omega (arith, rest.0, count-append j (ended_job e) (ended es)), rest.1)
      ]
]

-- A job that the pool does not know.
pub record IsUnknown (j : String) (p : Futures) : Type 0 where
  pub absent : count j (keys p.jobs) ≡ 0
  pub never : completions j p ≡ 0

complete-IsUnknown :
    (o : Option Bool) (k : String) (a : Answer) (j : String) (p : Futures)
    → get p.jobs k ≡ o
    → IsUnknown j p
    → IsUnknown j (complete o k a p)
complete-IsUnknown none k a j p e h = record {
  absent = omega (arith, count-remove p.jobs k j, h.absent);
  never = h.never;
}
complete-IsUnknown (some true) k a j p e h = record {
  absent = omega (arith, count-remove p.jobs k j, h.absent);
  never = h.never;
}
complete-IsUnknown (some false) k a j p e h = record {
  absent = omega (arith, count-remove p.jobs k j, h.absent);
  never = ground (arith, h.never, h.absent, get-absent p.jobs j, e, string_eq.agrees k j);
}

answer-IsUnknown :
    (e : ControlEffect) (j : String) (p : Futures) → IsUnknown j p → IsUnknown j (answer e p)
unfolding Does
answer-IsUnknown e j p h = elim (Does-kind e.kind e p refl) [
  | inl same ↦ subst (IsUnknown j) (sym same.0) h
  | inr (a, done) ↦
      subst (IsUnknown j) (sym done.0)
        (complete-IsUnknown (get p.jobs (job_of e)) (job_of e) a j p refl h)
]

pub answer_all-IsUnknown :
    (es : List ControlEffect) (j : String) (p : Futures)
    → IsUnknown j p
    → IsUnknown j (answer_all es p)
unfolding answer_all
answer_all-IsUnknown [] j p h = h
answer_all-IsUnknown (e ∷ es) j p h =
    answer_all-IsUnknown es j (answer e p) (answer-IsUnknown e j p h)

-- A job with an id that is not empty, submitted once, whose future the pool holds once and open: after
-- any history of the core, whose effects the pool has carried out in order, either no effect has
-- answered the job and its future waits, or its future has been completed exactly once, the pool has
-- forgotten the job and the core holds it no longer.
pub answer_all-once :
    {n : ℕ} {events : List ControlEvent} {c : ReaperCore} {es : List ControlEffect}
    → Reached n events c es
    → (j : String) (p : Futures) → ("" == j) ≡ false
    → count j (submitted events) ≡ 1
    → IsOpen j p
    → ((count j (ended es) ≡ 0) × IsOpen j (answer_all es p))
      ⊎ ((count j (jobs c) ≡ 0) × IsOver j (answer_all es p))
answer_all-once {es = es} r j p named once h = elim (answer_all-cases es j p named h) [
  | inl waits ↦ inl waits
  | inr over ↦ inr (omega (arith, over.0, once, Reached-answered r j), over.1)
]
