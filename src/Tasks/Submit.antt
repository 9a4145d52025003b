-- ===== src/Tasks/Submit.antt =====
-- submit_calls of reaper/tasks/__init__.py. The fingerprint, a hash of the request, and the two statements
-- are parameters; a promise record has the fields that the function reads.
use reaper.Base.{
  String, ◌≡◌, refl, sym, ◌∙◌, ap, not, Option, none, some, List, [], ◌∷◌, map, if◌then◌else◌,
  contains, ◌==◌, string_eq, All, Option-cases, Bool-cases, subst, inl, inr, arith,
}
use reaper.Base.Dict.{Dict, get, put, All-put, All-get}

pub record PromiseRecord : Type 0 where
  pub id : String
  pub idempotency_key : String

pub data Submitted : Type 0 where
  submitted : List PromiseRecord → Submitted
  idempotency_conflict promise_not_found : String → Submitted

-- The first id that stands earlier in `ids` as well; there is one exactly when the set is smaller.
abbrev pub first_duplicate : List String → List String → Option String
first_duplicate seen [] = none
first_duplicate seen (id ∷ ids) =
    if contains seen id then some id else first_duplicate (id ∷ seen) ids

-- `promises.update`, or a dict comprehension: later records take the place of earlier ones.
abbrev pub update : Dict String PromiseRecord → List PromiseRecord → Dict String PromiseRecord
update promises [] = promises
update promises (p ∷ ps) = update (put promises p.id p) ps

abbrev pub missing : Dict String PromiseRecord → List String → List String
missing promises [] = []
missing promises (id ∷ ids) = elim (get promises id) [
  | none ↦ id ∷ missing promises ids
  | some p ↦ missing promises ids
]

abbrev pub lookup : Dict String PromiseRecord → List String → List PromiseRecord
lookup promises [] = []
lookup promises (id ∷ ids) = elim (get promises id) [
  | none ↦ lookup promises ids
  | some p ↦ p ∷ lookup promises ids
]

missing-none :
    (d : Dict String PromiseRecord) (id : String) (ids : List String)
    → get d id ≡ none
    → missing d (id ∷ ids) ≡ id ∷ missing d ids
missing-none d id ids h = rw (missing, h) refl

missing-some :
    (d : Dict String PromiseRecord) (id : String) (ids : List String) (p : PromiseRecord)
    → get d id ≡ some p
    → missing d (id ∷ ids) ≡ missing d ids
missing-some d id ids p h = rw (missing, h) refl

lookup-some :
    (d : Dict String PromiseRecord) (id : String) (ids : List String) (p : PromiseRecord)
    → get d id ≡ some p
    → lookup d (id ∷ ids) ≡ p ∷ lookup d ids
lookup-some d id ids p h = rw (lookup, h) refl

-- Every promise stands under its own id.
abbrev Keyed : String × PromiseRecord → Type 0
Keyed entry = entry.1.id ≡ entry.0

Keyed-update :
    (promises : Dict String PromiseRecord) (ps : List PromiseRecord)
    → All Keyed promises
    → All Keyed (update promises ps)
Keyed-update promises [] h = h
Keyed-update promises (p ∷ ps) h =
    Keyed-update (put promises p.id p) ps (All-put Keyed promises p.id p refl h)

module _ (SubmitCall : Type 0) (id_of : SubmitCall → String) (fingerprint : SubmitCall → String)
    (submit_rows : List SubmitCall → List PromiseRecord)
    (get_promises : List String → List PromiseRecord) where
  -- The first call whose promise was made for another request.
  abbrev pub first_conflict : List SubmitCall → List PromiseRecord → Option String
  first_conflict [] ps = none
  first_conflict (call ∷ calls) [] = none
  first_conflict (call ∷ calls) (p ∷ ps) =
      if not (fingerprint call == p.idempotency_key)
      then some (id_of call)
      else first_conflict calls ps

  -- The promises that the insertion gives, and those that another submission made before.
  unfoldable pub complete : Dict String PromiseRecord → List String → Dict String PromiseRecord
  complete promises [] = promises
  complete promises (id ∷ ids) = update promises (get_promises (id ∷ ids))

  abbrev pub conclude : List PromiseRecord → Option String → Submitted
  conclude ps none = submitted ps
  conclude ps (some id) = idempotency_conflict id

  abbrev pub check_calls : List SubmitCall → Dict String PromiseRecord → List String → Submitted
  check_calls calls promises [] =
      conclude (lookup promises (map id_of calls))
        (first_conflict calls (lookup promises (map id_of calls)))
  check_calls calls promises (id ∷ ids) = promise_not_found id

  abbrev pub fetched : List SubmitCall → Dict String PromiseRecord
  fetched calls =
      let promises = update [] (submit_rows calls) in
      complete promises (missing promises (map id_of calls))

  abbrev pub unless_duplicate : List SubmitCall → Option String → Submitted
  unless_duplicate calls (some id) = idempotency_conflict id
  unless_duplicate calls none =
      check_calls calls (fetched calls) (missing (fetched calls) (map id_of calls))

  unfoldable pub submit_calls : List SubmitCall → Submitted
  unfolding complete
  submit_calls [] = submitted []
  submit_calls (call ∷ calls) =
      unless_duplicate (call ∷ calls) (first_duplicate [] (map id_of (call ∷ calls)))

  -- One promise for each call, under its id and made for its request.
  abbrev pub Matches : List SubmitCall → List PromiseRecord → Type 0
  Matches [] [] = Unit
  Matches (call ∷ calls) (p ∷ ps) =
      (p.id ≡ id_of call) × (p.idempotency_key ≡ fingerprint call) × Matches calls ps
  Matches calls ps = ⊥

  first_conflict-agrees :
      (call : SubmitCall) (calls : List SubmitCall) (p : PromiseRecord) (ps : List PromiseRecord)
      → first_conflict (call ∷ calls) (p ∷ ps) ≡ none
      → (p.idempotency_key ≡ fingerprint call) × (first_conflict calls ps ≡ none)
  first_conflict-agrees call calls p ps h =
      elim (Bool-cases (fingerprint call == p.idempotency_key)) [
        | inl t ↦
            (sym ((string_eq.agrees (fingerprint call) p.idempotency_key).0 t), ground (arith))
        | inr f ↦ absurd (ground (arith))
      ]

  lookup-Matches :
      (promises : Dict String PromiseRecord) (calls : List SubmitCall)
      → All Keyed promises
      → missing promises (map id_of calls) ≡ []
      → first_conflict calls (lookup promises (map id_of calls)) ≡ none
      → Matches calls (lookup promises (map id_of calls))
  lookup-Matches promises [] keyed found agree = tt
  lookup-Matches promises (call ∷ calls) keyed found agree =
      elim (Option-cases (get promises (id_of call))) [
        | inl n ↦
            let gap = sym (missing-none promises (id_of call) (map id_of calls) n) ∙ found in
            absurd (cc)
        | inr (p, h) ↦
            let here = lookup-some promises (id_of call) (map id_of calls) p h in
            let later = sym (missing-some promises (id_of call) (map id_of calls) p h) ∙ found in
            let (same, rest) =
              first_conflict-agrees call calls p _
                (sym (ap (first_conflict (call ∷ calls)) here) ∙ agree) in
            subst (Matches (call ∷ calls)) (sym here) (
              All-get Keyed promises (id_of call) p keyed h,
              same,
              lookup-Matches promises calls keyed later rest,
            )
      ]

  Keyed-fetched : (calls : List SubmitCall) → All Keyed (fetched calls)
  unfolding complete
  Keyed-fetched calls = go (missing (update [] (submit_rows calls)) (map id_of calls))
    where
      go : (ids : List String) → All Keyed (complete (update [] (submit_rows calls)) ids)
      go [] = Keyed-update [] (submit_rows calls) tt
      go (id ∷ ids) =
          Keyed-update _ (get_promises (id ∷ ids)) (Keyed-update [] (submit_rows calls) tt)

  -- What the function gives is an error or the promises that match the calls.
  abbrev Sound : List SubmitCall → Submitted → Type 0
  Sound calls (submitted ps) = Matches calls ps
  Sound calls s = Unit

  Sound-conclude :
      (calls : List SubmitCall) (promises : Dict String PromiseRecord) (ids : List String)
      (o : Option String)
      → All Keyed promises
      → missing promises (map id_of calls) ≡ []
      → first_conflict calls (lookup promises (map id_of calls)) ≡ o
      → Sound calls (conclude (lookup promises (map id_of calls)) o)
  Sound-conclude calls promises ids none keyed found agree =
      lookup-Matches promises calls keyed found agree
  Sound-conclude calls promises ids (some id) keyed found agree = tt

  Sound-check_calls :
      (calls : List SubmitCall) (promises : Dict String PromiseRecord) (ids : List String)
      → All Keyed promises
      → missing promises (map id_of calls) ≡ ids
      → Sound calls (check_calls calls promises ids)
  Sound-check_calls calls promises [] keyed found =
      Sound-conclude calls promises [] _ keyed found refl
  Sound-check_calls calls promises (id ∷ ids) keyed found = tt

  Sound-unless_duplicate :
      (calls : List SubmitCall) (o : Option String) → Sound calls (unless_duplicate calls o)
  Sound-unless_duplicate calls none = Sound-check_calls calls _ _ (Keyed-fetched calls) refl
  Sound-unless_duplicate calls (some id) = tt

  Sound-submit_calls : (calls : List SubmitCall) → Sound calls (submit_calls calls)
  unfolding submit_calls
  Sound-submit_calls [] = tt
  Sound-submit_calls (call ∷ calls) = Sound-unless_duplicate (call ∷ calls) _

  -- A batch that is submitted gives one promise for each call, in order, under the call's id and with
  -- the fingerprint of the call's request, whatever rows the two statements return: an id that was used
  -- for another request never passes as this one.
  pub submit_calls-Matches :
      (calls : List SubmitCall) (ps : List PromiseRecord)
      → submit_calls calls ≡ submitted ps
      → Matches calls ps
  submit_calls-Matches calls ps h = subst (Sound calls) h (Sound-submit_calls calls)
