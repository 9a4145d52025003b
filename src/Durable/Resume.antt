-- ===== src/Durable/Resume.antt =====
-- A task that gather has suspended, when it is claimed again.
use reaper.Base.{
  ℕ, ◌≡◌, refl, sym, ap, String, Bool, false, some, List, [], ◌∷◌, ◌++◌, map, All, arith, string_eq,
  subst,
}
use reaper.Base.Dict.{Dict, put, All-put, All-get}
use reaper.Store.Types.{Store}
use reaper.Store.Claim.{FunctionVersion, WaitedPromise, ClaimedTask, claim_task}
use reaper.Store.Invariant.{IsConsistent}
use reaper.Store.Ready.{IsSettled, claim_task-IsSettled}
use reaper.Durable.Context.{Stored, waited, stored_id, Context, save, preloaded, claimed_context}
use reaper.Durable.Calls.{
  Call, Called, promised, raised, Gathered, gathered, failed, collect, is_waiting, invoke,
  invoke_all, gather,
}
use reaper.Durable.Kept.{IsPromised, Keeps, invoke-Keeps}
use reaper.Durable.Gather.{waits_for, Settles, gives, pauses, gather-Settles}

-- A memo of settled promises.
abbrev IsDone : Dict String Stored → Type 0
IsDone d = All (λ e. is_waiting e.1 ≡ false) d

preloaded-IsDone :
    (ws : List WaitedPromise) (d : Dict String Stored)
    → All IsSettled ws
    → IsDone d
    → IsDone (preloaded (map waited ws) d)
unfolding preloaded
preloaded-IsDone [] d h k = k
preloaded-IsDone (w ∷ ws) d h k =
    preloaded-IsDone ws (put d w.id (waited w)) h.1
      (All-put (λ e. is_waiting e.1 ≡ false) d w.id (waited w) h.0 k)

append-empty {ℓ} : {A : Type ℓ} (xs ys : List A) → xs ++ ys ≡ [] → (xs ≡ []) × (ys ≡ [])
append-empty [] ys h = (refl, h)
append-empty (x ∷ xs) ys h = absurd (cc)

-- What is given without a submission comes from the memo.
invoke-IsDone :
    (call : Call) (c : Context) (k : Keeps call c (invoke call c))
    → (invoke call c).sent ≡ []
    → IsDone c.memo
    → (is_waiting k.p ≡ false) × IsDone (invoke call c).context.memo
unfolding save
invoke-IsDone call c k n done =
    let settled =
      All-get (λ e. is_waiting e.1 ≡ false) c.memo (stored_id k.p) k.p done (k.recalled n) in
    (
      settled,
      subst (λ x. IsDone x.memo) (sym k.leaves)
          (All-put (λ e. is_waiting e.1 ≡ false) c.memo (stored_id k.p) k.p settled done),
    )

collect-cons :
    (called : Called) (rest : List Called) (ps : List Stored)
    → collect (called ∷ rest) ≡ gathered ps
    → IsPromised called
collect-cons (promised p) rest ps e = tt
collect-cons (raised f) rest ps e = absurd (cc)

abbrev stored_of : Gathered → List Stored
stored_of (gathered ps) = ps
stored_of (failed f) = []

gathered-cons :
    (p : Stored) (g : Gathered) (ps : List Stored)
    → elim g [ gathered qs ↦ gathered (p ∷ qs) | failed f ↦ failed f ] ≡ gathered ps
    → (qs : List Stored) × ((g ≡ gathered qs) × (p ∷ qs ≡ ps))
gathered-cons p (gathered qs) ps e = (qs, (refl, ap stored_of e))
gathered-cons p (failed f) ps e = absurd (cc)

gathered-IsDone :
    (calls : List Call) (c : Context) (ps : List Stored)
    → collect (invoke_all calls c).all_called ≡ gathered ps
    → (invoke_all calls c).all_sent ≡ []
    → IsDone c.memo
    → All (λ p. is_waiting p ≡ false) ps
unfolding invoke_all
gathered-IsDone [] c ps e n done = subst (All (λ p. is_waiting p ≡ false)) (ap stored_of e) tt
gathered-IsDone (call ∷ calls) c ps e n done =
    let turn = invoke call c in
    let rest = invoke_all calls turn.context in
    let k = invoke-Keeps call c (collect-cons turn.called rest.all_called ps e) in
    let empty = append-empty turn.sent rest.all_sent n in
    let here = invoke-IsDone call c k empty.0 done in
    let tail =
      gathered-cons k.p (collect rest.all_called) ps
        (subst (λ x. collect (x ∷ rest.all_called) ≡ gathered ps) k.gives e) in
    subst (All (λ p. is_waiting p ≡ false)) tail.1.1
      (here.0, gathered-IsDone calls turn.context tail.0 tail.1.0 empty.1 here.1)

none-waits_for :
    (ps : List Stored) (a : String) → All (λ p. is_waiting p ≡ false) ps → waits_for ps a ≡ false
none-waits_for [] a h = refl
none-waits_for (p ∷ ps) a h = ground (arith, h.0, none-waits_for ps a h.1)

settled-gathered :
    (ps : List Stored) (g : Gathered)
    → All (λ p. is_waiting p ≡ false) ps
    → Settles ps g
    → g ≡ gathered ps
settled-gathered ps g h (gives k) = refl
settled-gathered ps g h (pauses id ids only once) =
    absurd (ground (arith, only id, none-waits_for ps id h, string_eq.agrees id id))

-- A task that is claimed from a consistent store, and whose calls all find their promises in the waits
-- of the claim, is not suspended again: gather gives it the promises.
pub gather-claimed :
    (precedes : String → String → Bool) (now : ℕ) (topic : String) (excluded : List FunctionVersion)
    (locked : String → Bool) (s : Store) (t : ClaimedTask) (calls : List Call) (ps : List Stored)
    → IsConsistent s
    → claim_task precedes now topic excluded locked s ≡ some t
    → collect (invoke_all calls (claimed_context t)).all_called ≡ gathered ps
    → (invoke_all calls (claimed_context t)).all_sent ≡ []
    → gather calls (claimed_context t) ≡ gathered ps
gather-claimed precedes now topic excluded locked s t calls ps k claimed e n =
    settled-gathered ps (gather calls (claimed_context t))
      (gathered-IsDone calls (claimed_context t) ps e n (
        preloaded-IsDone t.waits []
          (claim_task-IsSettled precedes now topic excluded locked s t k claimed) tt))
      (gather-Settles calls (claimed_context t) ps e)
