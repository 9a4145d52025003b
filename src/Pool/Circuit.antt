-- ===== src/Pool/Circuit.antt =====
-- How many faults open the circuit of SkeletonPool in reaper/pool.py.
use reaper.Base.{
  ℕ, suc, ◌+◌, ◌*◌, ◌≤◌, ◌<◌, String, ◌≡◌, refl, ap, ◌⊎◌, Bool, true, false, List, [], ◌∷◌, ◌++◌,
  if◌then◌else◌, if_elim, ◌==◌, nat_eq, string_eq, ltb, leb, arith, length, length-append, inl, inr,
  All,
}
use mathlib.Core.Path.{ap₂}
use reaper.Pool.Faults.{
  Circuit, Fault, Reason, signature, add, permanent_service_fault, transient_service_fault,
  open_circuit, end_round, counted, count_fault, record_service_fault,
}

-- The faults that the open run of a signature stands for.
abbrev pub progress : Circuit → ℕ
progress c = c.service_fault_round * c.target + length c.service_fault_slots

pub record IsCounting (c : Circuit) : Type 0 where
  pub partial : length c.service_fault_slots < c.target
  pub short : c.failure_event ≡ false → c.service_fault_round < c.service_failure_rounds

-- The limits of the circuit, which no operation changes.
pub record SameLimits (c d : Circuit) : Type 0 where
  pub target : d.target ≡ c.target
  pub rounds : d.service_failure_rounds ≡ c.service_failure_rounds

-- One fault: the circuit still counts, and has come at most one fault further.
pub record Advances (c d : Circuit) : Type 0 where
  pub limits : SameLimits c d
  pub counting : IsCounting d
  pub further : progress d ≤ suc (progress c)

length-add-le : (g : ℕ) (gs : List ℕ) → length (add g gs) ≤ suc (length gs)
length-add-le g gs = ground (arith, length-append gs (g ∷ []))

progress-end_round :
    (d : Circuit) (sig : String) → progress (end_round d sig) ≡ suc d.service_fault_round * d.target
unfolding end_round open_circuit
progress-end_round d sig = ground arith

rounds_mono : (a b t : ℕ) → a ≤ b → suc a * t ≤ b * t + t
rounds_mono a b t h = grind arith

slots_mono : (a b t : ℕ) → a ≤ b → a * t ≤ b * t
slots_mono a b t h = grind arith

-- The full round of `end_round`.
Advances-end_round :
    (c d : Circuit) (sig : String)
    → IsCounting c
    → SameLimits c d
    → d.failure_event ≡ c.failure_event
    → c.target ≤ length d.service_fault_slots
    → length d.service_fault_slots ≤ suc (length c.service_fault_slots)
    → d.service_fault_round ≤ c.service_fault_round
    → Advances c (end_round d sig)
unfolding end_round open_circuit
Advances-end_round c d sig v l event full few back = record {
  limits = record { target = ground (arith, l.target); rounds = ground (arith, l.rounds) };
  counting = record {
    partial = ground (arith, l.target, v.partial);
    short = ground (arith, l.rounds, v.short);
  };
  further = omega (
    arith,
    progress-end_round d sig,
    ap (◌*◌ (suc d.service_fault_round)) l.target,
    rounds_mono d.service_fault_round c.service_fault_round c.target back,
  );
}

Advances-count_fault : (c : Circuit) (f : Fault) → IsCounting c → Advances c (count_fault c f)
unfolding count_fault
Advances-count_fault c f v =
    if_elim (Advances c) (ltb (length slots) c.target) _ _
      (λ part. record {
        limits = record { target = refl; rounds = refl };
        counting = record {
          partial = ground (arith, part);
          short = λ p. omega (arith, v.short p, back);
        };
        further = omega (arith, few, slots_mono round c.service_fault_round c.target back);
      })
      (λ full.
        Advances-end_round c _ (signature f) v (record { target = refl; rounds = refl }) refl
          (ground (arith, full)) few back)
  where
    same : Bool
    same = signature f == c.service_fault

    slots : List ℕ
    slots = add f.gen (if same then c.service_fault_slots else [])

    round : ℕ
    round = if same then c.service_fault_round else 0

    few : length slots ≤ suc (length c.service_fault_slots)
    few =
        if_elim (λ gs. length (add f.gen gs) ≤ suc (length c.service_fault_slots)) same _ _
          (λ _. length-add-le f.gen c.service_fault_slots)
          (λ _. omega (arith, length-add-le f.gen []))

    back : round ≤ c.service_fault_round
    back = if_elim (λ n. n ≤ c.service_fault_round) same _ _ (λ _. omega arith) (λ _. omega arith)

-- What a fault that is not permanent may do.
Advances-record :
    (c : Circuit) (f : Fault)
    → permanent_service_fault f.code ≡ false
    → IsCounting c
    → Advances c (record_service_fault c f)
unfolding record_service_fault
Advances-record c f passing v =
    if_elim (Advances c) (permanent_service_fault f.code) _ _ (λ p. cc)
      λ _.
        if_elim (Advances c) (transient_service_fault f.kind f.code) _ _
          (λ _. record {
            limits = record { target = refl; rounds = refl };
            counting = v;
            further = omega arith;
          })
          (λ _. Advances-count_fault c f v)

-- The faults of a pool, one after another.
pub record_all : Circuit → List Fault → Circuit
record_all c [] = c
record_all c (f ∷ fs) = record_all (record_service_fault c f) fs

-- Still shut, or the rounds are used up.
abbrev Spent : Circuit → Type 0
Spent c = (c.failure_event ≡ false) ⊎ (c.service_failure_rounds ≤ c.service_fault_round)

Spent-end_round : (d : Circuit) (sig : String) → d.failure_event ≡ false → Spent (end_round d sig)
unfolding end_round open_circuit
Spent-end_round d sig shut =
    if_elim Spent (leb d.service_failure_rounds (suc d.service_fault_round)) _ _
      (λ over. if_elim Spent d.failure_event _ _ (λ p. cc) (λ _. inr (ground (arith, over))))
      (λ _. inl shut)

Spent-count_fault : (c : Circuit) (f : Fault) → c.failure_event ≡ false → Spent (count_fault c f)
unfolding count_fault
Spent-count_fault c f shut =
    if_elim Spent (ltb (length (counted c f).service_fault_slots) c.target) (counted c f)
      (end_round (counted c f) (signature f)) (λ _. inl shut)
      (λ _. Spent-end_round (counted c f) (signature f) shut)

Spent-record :
    (c : Circuit) (f : Fault)
    → permanent_service_fault f.code ≡ false
    → c.failure_event ≡ false
    → Spent (record_service_fault c f)
unfolding record_service_fault
Spent-record c f passing shut =
    if_elim Spent (permanent_service_fault f.code) _ _ (λ p. cc)
      λ _.
        if_elim Spent (transient_service_fault f.kind f.code) _ _ (λ _. inl shut)
          (λ _. Spent-count_fault c f shut)

-- A circuit that counts is not opened by faults that are not permanent, as long as they and the run
-- that they continue are fewer than the target times the failure rounds.
pub record_all-shut :
    (fs : List Fault) (c : Circuit)
    → IsCounting c
    → c.failure_event ≡ false
    → All (λ f. permanent_service_fault f.code ≡ false) fs
    → progress c + length fs < c.service_failure_rounds * c.target
    → (record_all c fs).failure_event ≡ false
unfolding record_all
record_all-shut [] c v shut passing few = shut
record_all-shut (f ∷ fs) c v shut passing few =
    let a = Advances-record c f passing.0 v in
    let d : Circuit = record_service_fault c f in
    let limit : d.service_failure_rounds * d.target ≡ c.service_failure_rounds * c.target =
      ap₂ ◌*◌ a.limits.rounds a.limits.target in
    let still : d.failure_event ≡ false = elim (Spent-record c f passing.0 shut) [
      | inl ok ↦ ok
      | inr over ↦ absurd (
          omega (
            arith,
            limit,
            a.further,
            slots_mono d.service_failure_rounds d.service_fault_round d.target over,
          ))
    ] in
    record_all-shut fs d a.counting still passing.1 (omega (arith, limit, a.further))

-- A permanent fault opens the circuit at once, and an open circuit keeps its first error.
pub record-permanent :
    (c : Circuit) (f : Fault)
    → permanent_service_fault f.code ≡ true
    → (record_service_fault c f).failure_errors ≡ (
        if c.failure_event
        then c.failure_errors
        else c.failure_errors ++ Reason.permanent (signature f) ∷ [])
unfolding record_service_fault open_circuit
record-permanent c f p =
    if_elim
      (λ (x : Circuit). x.failure_errors ≡ (
        if c.failure_event
        then c.failure_errors
        else c.failure_errors ++ Reason.permanent (signature f) ∷ []))
      (permanent_service_fault f.code) _ _ (λ _. ground arith) (λ q. cc)
