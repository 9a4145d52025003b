-- ===== src/Durable/Kept.antt =====
-- What a call that gives a promise has done to its task.
use reaper.Base.{
  suc, ◌≡◌, refl, sym, String, true, false, not, Option, none, some, List, [], ◌∷◌, if◌then◌else◌,
  if_elim, ◌==◌, string_eq, ltb, arith, ◌∙◌, Bool-cases, inl, inr, subst,
}
use mathlib.Core.Bool.{true≢false}
use mathlib.Core.Option.{some-injective}
use reaper.Base.Dict.{Dict, get, put}
use reaper.Durable.Context.{
  Stored, stored_id, Context, child_id, max_child_promises, next_id, find, save,
}
use reaper.Durable.Calls.{
  Call, Called, promised, raised, max_promise_bytes, max_promise_depth, Turn, kept, answered,
  submit_child, recall, with_id, invoke,
}

get-put :
    (d : Dict String Stored) (k : String) (v : Stored) (a : String)
    → get (put d k v) a ≡ (if k == a then some v else get d a)
get-put [] k v a = refl
get-put ((j, w) ∷ d) k v a =
    ground
      (arith, get-put d k v a, string_eq.agrees j k, string_eq.agrees j a, string_eq.agrees k a)

-- Saving again what is there changes no lookup.
pub get-put-same :
    (d : Dict String Stored) (k : String) (v : Stored) (a : String) (w : Stored)
    → get d k ≡ some v
    → get d a ≡ some w
    → get (put d k v) a ≡ some w
get-put-same d k v a w h e = ground (arith, get-put d k v a, string_eq.agrees k a, h, e)

-- All calls gave promises.
abbrev pub IsPromised : Called → Type 0
IsPromised (promised p) = Unit
IsPromised (raised f) = true ≡ false

-- What a promise that was given says of a memo.
abbrev pub IsFound : Dict String Stored → Called → Type 0
IsFound d (promised p) = get d (stored_id p) ≡ some p
IsFound d (raised f) = Unit

-- What a call that gives a promise has done.
pub record Keeps (call : Call) (c : Context) (t : Turn) : Type 0 where
  pub p : Stored
  pub fits : ltb max_promise_bytes call.input_size ≡ false
  pub shallow : ltb max_promise_depth (suc c.depth) ≡ false
  pub counts : ltb max_child_promises (suc c.call_index) ≡ false
  pub named : stored_id p ≡ child_id c.task_id (suc c.call_index) call.name
  pub gives : t.called ≡ promised p
  pub leaves : t.context ≡ save p (record c { call_index = suc c.call_index })
  pub recalled : t.sent ≡ [] → get c.memo (stored_id p) ≡ some p
  pub before : (w : Stored) → get c.memo (stored_id p) ≡ some w → w ≡ p

module _ (call : Call) (c : Context) (fits : ltb max_promise_bytes call.input_size ≡ false)
    (shallow : ltb max_promise_depth (suc c.depth) ≡ false)
    (counts : ltb max_child_promises (suc c.call_index) ≡ false) where
  abbrev id : String
  id = child_id c.task_id (suc c.call_index) call.name

  abbrev next : Context
  next = record c { call_index = suc c.call_index }

  kept-Keeps :
      (p : Stored) (sent : List String)
      → (sent ≡ [] → get c.memo id ≡ some p)
      → ((w : Stored) → get c.memo id ≡ some w → w ≡ p)
      → IsPromised (kept id p next sent).called
      → Keeps call c (kept id p next sent)
  unfolding save
  kept-Keeps p sent recalled before = elim (Bool-cases (stored_id p == id)) [
    | inl same ↦
        let named : stored_id p ≡ id = ground (arith, same, string_eq.agrees (stored_id p) id) in
        λ _. record {
          p = p;
          fits = fits;
          shallow = shallow;
          counts = counts;
          named = named;
          gives = rw same refl;
          leaves = refl;
          recalled = λ n. subst (λ a. get c.memo a ≡ some p) (sym named) (recalled n);
          before = λ w f. before w (subst (λ a. get c.memo a ≡ some w) named f);
        }
    | inr other ↦ λ h. absurd (true≢false (rw other at h))
  ]

  answered-Keeps :
      (o : Option Stored)
      → get c.memo id ≡ none
      → IsPromised (answered o id next).called
      → Keeps call c (answered o id next)
  answered-Keeps none e h = absurd (true≢false h)
  answered-Keeps (some p) e h =
      kept-Keeps p (id ∷ []) (λ n. absurd (cc)) (λ w f. let none≡some = sym e ∙ f in absurd (cc)) h

  submit_child-Keeps :
      get c.memo id ≡ none
      → IsPromised (submit_child call id next).called
      → Keeps call c (submit_child call id next)
  submit_child-Keeps e =
      if_elim (λ (t : Turn). IsPromised t.called → Keeps call c t) (not c.executes) _ _
        (λ _ h. absurd (true≢false h)) (λ _. answered-Keeps call.answer e)

  recall-Keeps :
      (o : Option Stored)
      → get c.memo id ≡ o
      → IsPromised (recall call id o next).called
      → Keeps call c (recall call id o next)
  recall-Keeps (some p) e h = kept-Keeps p [] (λ _. e) (λ w f. some-injective w p (sym f ∙ e)) h
  recall-Keeps none e h = submit_child-Keeps e h

pub invoke-Keeps :
    (call : Call) (c : Context) → IsPromised (invoke call c).called → Keeps call c (invoke call c)
unfolding invoke next_id find
invoke-Keeps call c =
    if_elim (λ (t : Turn). IsPromised t.called → Keeps call c t)
      (ltb max_promise_bytes call.input_size) _ _ (λ _ h. absurd (true≢false h))
      (λ fits.
        if_elim (λ (t : Turn). IsPromised t.called → Keeps call c t)
          (ltb max_promise_depth (suc c.depth)) _ _ (λ _ h. absurd (true≢false h))
          (λ shallow.
            let next = record c { call_index = suc c.call_index } in
            if_elim
              (λ (o : Option String).
                IsPromised (with_id call o next).called → Keeps call c (with_id call o next))
              (ltb max_child_promises (suc c.call_index)) _ _ (λ _ h. absurd (true≢false h))
              (λ counts.
                recall-Keeps call c fits shallow counts
                  (get c.memo (child_id c.task_id (suc c.call_index) call.name)) refl)))

-- The memo after a call: what was there, and the promise.
pub memo-Keeps :
    (call : Call) (c : Context) (t : Turn) (k : Keeps call c t) (a : String) (w : Stored)
    → get c.memo a ≡ some w
    → get t.context.memo a ≡ some w
unfolding save
memo-Keeps call c t k a w e =
    subst (λ d. get d.memo a ≡ some w) (sym k.leaves)
      (ground (
        arith,
        get-put c.memo (stored_id k.p) k.p a,
        string_eq.agrees (stored_id k.p) a,
        e,
        k.before w,
      ))

pub found-Keeps :
    (call : Call) (c : Context) (t : Turn) (k : Keeps call c t)
    → get t.context.memo (stored_id k.p) ≡ some k.p
unfolding save
found-Keeps call c t k =
    subst (λ d. get d.memo (stored_id k.p) ≡ some k.p) (sym k.leaves)
      (ground (
        arith,
        get-put c.memo (stored_id k.p) k.p (stored_id k.p),
        string_eq.agrees (stored_id k.p) (stored_id k.p),
      ))
