-- ===== src/Durable/Replay.antt =====
-- A task that runs again with the promises of its calls in its memo.
use reaper.Base.{
  suc, ◌≡◌, refl, sym, ap, String, true, some, List, [], ◌∷◌, All, All-map, ◌==◌, string_eq, arith,
  subst,
}
use reaper.Base.Dict.{Dict, get, put}
use reaper.Durable.Context.{Stored, stored_id, Context, child_id, next_id, find, save}
use reaper.Durable.Calls.{Call, Called, promised, raised, Turn, invoke, invoke_all}
use reaper.Durable.Kept.{
  IsPromised, IsFound, Keeps, get-put-same, invoke-Keeps, memo-Keeps, found-Keeps,
}

invoke_all-memo :
    (calls : List Call) (c : Context) (a : String) (w : Stored)
    → All IsPromised (invoke_all calls c).all_called
    → get c.memo a ≡ some w
    → get (invoke_all calls c).last_context.memo a ≡ some w
unfolding invoke_all
invoke_all-memo [] c a w h e = e
invoke_all-memo (call ∷ calls) c a w h e =
    invoke_all-memo calls (invoke call c).context a w h.1
      (memo-Keeps call c (invoke call c) (invoke-Keeps call c h.0) a w e)

-- All promises are found in the memo that the calls leave.
invoke_all-IsFound :
    (calls : List Call) (c : Context)
    → All IsPromised (invoke_all calls c).all_called
    → All (IsFound (invoke_all calls c).last_context.memo) (invoke_all calls c).all_called
unfolding invoke_all
invoke_all-IsFound [] c h = tt
invoke_all-IsFound (call ∷ calls) c h =
    let k = invoke-Keeps call c h.0 in
    (
      subst (IsFound (invoke_all calls (invoke call c).context).last_context.memo) (sym k.gives) (
          invoke_all-memo calls (invoke call c).context (stored_id k.p) k.p h.1
            (found-Keeps call c (invoke call c) k)),
      invoke_all-IsFound calls (invoke call c).context h.1,
    )

abbrev replayed : Call → Context → Dict String Stored → Stored → Turn
replayed call c d p = record {
  called = promised p;
  context = save p (record c { call_index = suc c.call_index; memo = d });
  sent = [];
}

-- With its promise in the memo a call submits nothing.
invoke-again :
    (call : Call) (c : Context) (d : Dict String Stored) (t : Turn) (k : Keeps call c t)
    → get d (stored_id k.p) ≡ some k.p
    → invoke call (record c { memo = d }) ≡ replayed call c d k.p
unfolding invoke next_id find save
invoke-again call c d t k e =
    let e' = subst (λ a. get d a ≡ some k.p) k.named e in
    let same : (stored_id k.p == child_id c.task_id (suc c.call_index) call.name) ≡ true = ground (
      arith,
      k.named,
      string_eq.agrees (stored_id k.p) (child_id c.task_id (suc c.call_index) call.name),
    ) in
    rw (invoke, k.fits, k.shallow, k.counts, e', same) refl

IsFound-put :
    (d : Dict String Stored) (id : String) (p : Stored) (q : Called)
    → get d id ≡ some p
    → IsFound d q
    → IsFound (put d id p) q
IsFound-put d id p (promised w) here e = get-put-same d id p (stored_id w) w here e
IsFound-put d id p (raised f) here e = tt

again-context :
    (call : Call) (c : Context) (d : Dict String Stored) (k : Keeps call c (invoke call c))
    → (replayed call c d k.p).context
      ≡ record (invoke call c).context { memo = put d (stored_id k.p) k.p }
unfolding save
again-context call c d k =
    ap (λ (x : Context). record x { memo = put d (stored_id k.p) k.p }) (sym k.leaves)

-- The calls again, with a memo that has their promises.
pub invoke_all-again :
    (calls : List Call) (c : Context) (d : Dict String Stored)
    → All IsPromised (invoke_all calls c).all_called
    → All (IsFound d) (invoke_all calls c).all_called
    → ((invoke_all calls (record c { memo = d })).all_called ≡ (invoke_all calls c).all_called)
      × ((invoke_all calls (record c { memo = d })).all_sent ≡ [])
unfolding invoke_all
invoke_all-again [] c d h f = (refl, refl)
invoke_all-again (call ∷ calls) c d h f =
    let k = invoke-Keeps call c h.0 in
    let here : get d (stored_id k.p) ≡ some k.p = subst (IsFound d) k.gives f.0 in
    let d' = put d (stored_id k.p) k.p in
    let rest = invoke_all-again calls (invoke call c).context d' h.1 (
      All-map (IsFound d) (IsFound d') (invoke_all calls (invoke call c).context).all_called
        (λ q. IsFound-put d (stored_id k.p) k.p q here) f.1) in
    let same = again-context call c d k in
    rw (invoke-again call c d (invoke call c) k here, same, k.gives)
      (ap (λ l. promised k.p ∷ l) rest.0, rest.1)

-- A task whose calls all gave promises, run again with the memo that they left, gets the same
-- promises and submits nothing.
pub invoke_all-replays :
    (calls : List Call) (c : Context)
    → All IsPromised (invoke_all calls c).all_called
    → let again = record c { memo = (invoke_all calls c).last_context.memo } in
      ((invoke_all calls again).all_called ≡ (invoke_all calls c).all_called)
      × ((invoke_all calls again).all_sent ≡ [])
invoke_all-replays calls c h =
    invoke_all-again calls c (invoke_all calls c).last_context.memo h (invoke_all-IsFound calls c h)
