-- ===== src/Pool/Submits.antt =====
-- submit and close of SkeletonPool in reaper/pool.py: a job that is taken is held by the core, and a pool
-- that has closed holds none.
use reaper.Base.{
  ℕ, ◌+◌, ◌≡◌, ◌⊎◌, refl, sym, subst, ap, ◌∙◌, String, Bool, false, some, List, [], ◌∷◌, arith,
  count, ◌==◌, string_eq, nat_eq, Bool-cases, inl, inr, if_elim, one, leb, length, contains-count,
  beq_refl,
}
use mathlib.Core.Option.{some-injective}
use reaper.Base.Dict.{Dict, get, put, keys}
use reaper.Control.Types.{EventKind}
use reaper.Control.Core.{jobs}
use reaper.Control.Jobs.{accepted}
use reaper.Control.Shut.{transition-Leaves}
use reaper.Pool.Answers.{IsOpen, IsUnknown}
use reaper.Pool.Slots.{SkeletonPool}
use reaper.Pool.Drive.{Host, Driven}
use reaper.Pool.Operations.{job_event, with_job, enqueue, submit_started, left_by}
use reaper.Pool.Carries.{IsServed}
use reaper.Pool.Serving.{IsServing, Serves, Stands, perform-Serves}

get-put-same : (d : Dict String Bool) (j : String) (b : Bool) → get (put d j b) j ≡ some b
get-put-same [] j b = ground (arith, beq_refl j)
get-put-same ((k, a) ∷ d) j b = ground (arith, get-put-same d j b)

get-put-other :
    (d : Dict String Bool) (k j : String) (b : Bool)
    → (k == j) ≡ false
    → get (put d k b) j ≡ get d j
get-put-other [] k j b h = ground arith
get-put-other ((i, a) ∷ d) k j b h = ground (
  arith,
  get-put-other d k j b h,
  string_eq.agrees i k,
  string_eq.agrees i j,
  string_eq.agrees k j,
)

count-put :
    (d : Dict String Bool) (k j : String) (b : Bool)
    → count k (keys d) ≡ 0
    → count j (keys (put d k b)) ≡ count j (keys d) + one (k == j)
count-put [] k j b h = omega arith
count-put ((i, a) ∷ d) k j b h = ground (arith, count-put d k j b)

-- A new job waits.
with_job-IsOpen :
    (p : SkeletonPool) (job : String)
    → IsUnknown job p.futures
    → IsOpen job (with_job p job).futures
with_job-IsOpen p job u = record {
  there = get-put-same p.futures.jobs job false;
  sole = ground (arith, count-put p.futures.jobs job job false, u.absent, beq_refl job);
  never = u.never;
}

-- The other jobs stand as they stood.
with_job-other :
    (p : SkeletonPool) (job j : String) (asked held : ℕ)
    → (job == j) ≡ false
    → IsUnknown job p.futures
    → Stands j asked p.futures held
    → Stands j asked (with_job p job).futures held
with_job-other p job j asked held far u h = elim h [
  | inl (a, v, z) ↦
      inl (a, record { absent = omega (arith, same, ap one far, v.absent); never = v.never }, z)
  | inr (inl (a, o, z)) ↦ inr (
      inl (
        a,
        record {
          there = get-put-other p.futures.jobs job j false far ∙ o.there;
          sole = omega (arith, same, ap one far, o.sole);
          never = o.never;
        },
        z,
      ))
  | inr (inr (a, o, z)) ↦ inr (
      inr (
        a,
        record { gone = get-put-other p.futures.jobs job j false far ∙ o.gone; once = o.once },
        z,
      ))
]
  where
    same :
        count j (keys (put p.futures.jobs job false))
        ≡ count j (keys p.futures.jobs) + one (job == j)
    same = count-put p.futures.jobs job j false u.absent

-- A job that the pool has never seen.
unseen :
    {n : ℕ} {seen : List String} {closed : Bool} (p : SkeletonPool) (job : String)
    → IsServing n seen closed p
    → ("" == job) ≡ false
    → count job seen ≡ 0
    → IsUnknown job p.futures × (count job (jobs p.core) ≡ 0)
unseen p job d named new = elim (d.kept job named) [
  | inl (a, u, z) ↦ (u, z)
  | inr (inl (a, o, z)) ↦ absurd (omega (arith, a, new))
  | inr (inr (a, o, z)) ↦ absurd (omega (arith, a, new))
]

twice : {a b c d : ℕ} → a ≡ b → c ≡ d → ◌≡◌ {A = ℕ × ℕ} (a, c) (b, d)
twice p q = cc

flipped : (a b : String) → (a == b) ≡ false → (b == a) ≡ false
flipped a b h = ground (arith, string_eq.agrees a b, string_eq.agrees b a)

-- An operation on a job takes it, or leaves it unknown.
abbrev pub Takes : ℕ → List String → String → Driven → Type 0
Takes n seen job r = Serves n seen false r ⊎ Serves n (job ∷ seen) false r

module _ (host : Host) (served : IsServed host) {n : ℕ} {seen : List String} (job : String)
    (named : ("" == job) ≡ false) (new : count job seen ≡ 0) where
  -- The job of a SUBMIT that is new to an open core is accepted.
  new-accepted :
      (p : SkeletonPool)
      → IsServing n seen false p
      → accepted EventKind.submit p.core (job_event job) ≡ job ∷ []
  new-accepted p d =
      ground (arith, d.stays, (unseen p job d named new).1, contains-count job (jobs p.core))

  taken :
      (p : SkeletonPool)
      → IsServing n seen false p
      → (j : String) → ("" == j) ≡ false
      → Stands j
          (count j (job ∷ seen))
          (with_job p job).futures
          (count j (jobs p.core) + count j (job ∷ []))
  taken p d j real = elim (Bool-cases (job == j)) [
    | inl same ↦
        let here = unseen p job d named new in
        subst
          (λ k.
            Stands k (count k (job ∷ seen)) (with_job p job).futures
              (count k (jobs p.core) + count k (job ∷ [])))
          ((string_eq.agrees job j).0 same)
          (inr (
            inl (
              omega (arith, ap one (beq_refl job)),
              with_job-IsOpen p job here.0,
              omega (arith, ap one (beq_refl job), here.1),
            )))
    | inr far ↦ with_job-other p job j _ _ far (unseen p job d named new).0 (
        subst (λ (x : ℕ × ℕ). Stands j x.0 p.futures x.1)
          (twice (omega (arith, ap one far)) (omega (arith, ap one far))) (d.kept j real))
  ]

  enqueue-Takes :
      (p : SkeletonPool)
      → IsServing n seen false p
      → Takes n seen job (left_by (enqueue host job p))
  unfolding enqueue
  enqueue-Takes p d =
      if_elim (λ r. Takes n seen job (left_by r)) (leb p.queue_limit (length p.core.queue)) _ _
        (λ _. inl d)
        λ _. inr (
          perform-Serves host served (job_event job) (with_job p job) d.history d.mirrored
            (record {
              free = tt;
              named = λ a h.
                  subst (λ x. (x == "") ≡ false) (some-injective job a h) (flipped "" job named);
              matched = tt;
            })
            refl (job ∷ seen)
            (λ j real.
              subst
                (λ xs.
                  Stands j (count j (job ∷ seen)) (with_job p job).futures
                    (count j (jobs p.core) + count j xs))
                (sym (new-accepted p d)) (taken p d j real))
            (λ h. d.shut (sym (transition-Leaves p.core (job_event job) refl) ∙ h)) false
            (transition-Leaves p.core (job_event job) refl ∙ d.stays))

  pub submit_started-Takes :
      (p : SkeletonPool)
      → IsServing n seen false p
      → Takes n seen job (left_by (submit_started host job p))
  unfolding submit_started
  submit_started-Takes p d =
      if_elim (λ r. Takes n seen job (left_by r)) p.recovery.closing _ _ (λ _. inl d)
        (λ _. enqueue-Takes p d)
