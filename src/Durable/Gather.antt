-- ===== src/Durable/Gather.antt =====
-- What gather gives when all of its calls gave promises.
use reaper.Base.{
  ◌≡◌, refl, ap, String, Bool, true, false, not, ◌&&◌, List, [], ◌∷◌, map, All, ◌==◌, string_eq,
  contains, arith, Bool-cases, inl, inr,
}
use reaper.Store.Rows.{any, keep}
use reaper.Store.Settle.{contains_id}
use reaper.Store.Suspend.{unique_ids}
use reaper.Durable.Context.{Stored, stored_id, Context, suspended}
use reaper.Durable.Calls.{
  Call, Gathered, gathered, failed, collect, is_waiting, from_keys, invoke_all, gather,
}

abbrev pub waits_for : List Stored → String → Bool
waits_for ps a = any (λ p. is_waiting p && stored_id p == a) ps

-- All promises have settled, and are given; or the task is suspended on the ids of those that wait.
pub data Settles (ps : List Stored) : Gathered → Type 0 where
  gives : All (λ p. is_waiting p ≡ false) ps → Settles ps (gathered ps)
  pauses :
      (id : String) (ids : List String)
      → ((a : String) → contains_id (id ∷ ids) a ≡ waits_for ps a)
      → unique_ids (id ∷ ids) ≡ true
      → Settles ps (failed (suspended (id ∷ ids)))

contains_id-from_keys :
    (seen ids : List String) (a : String)
    → contains_id (from_keys seen ids) a ≡ (contains_id ids a && not (contains seen a))
contains_id-from_keys seen [] a = refl
contains_id-from_keys seen (id ∷ ids) a = ground (
  arith,
  contains_id-from_keys seen ids a,
  contains_id-from_keys (id ∷ seen) ids a,
  string_eq.agrees id a,
)

unique_ids-from_keys : (seen ids : List String) → unique_ids (from_keys seen ids) ≡ true
unique_ids-from_keys seen [] = refl
unique_ids-from_keys seen (id ∷ ids) = ground (
  arith,
  unique_ids-from_keys seen ids,
  unique_ids-from_keys (id ∷ seen) ids,
  contains_id-from_keys (id ∷ seen) ids id,
  string_eq.agrees id id,
)

contains_id-waiting :
    (ps : List Stored) (a : String)
    → contains_id (map stored_id (keep is_waiting ps)) a ≡ waits_for ps a
contains_id-waiting [] a = refl
contains_id-waiting (p ∷ ps) a = ground (arith, contains_id-waiting ps a)

none-waiting :
    (ps : List Stored)
    → map stored_id (keep is_waiting ps) ≡ []
    → All (λ p. is_waiting p ≡ false) ps
none-waiting [] e = tt
none-waiting (p ∷ ps) e = elim (Bool-cases (is_waiting p)) [
  | inl waits ↦ let cons≡nil = rw waits at e in absurd (cc)
  | inr settled ↦ (settled, none-waiting ps (rw settled at e))
]

all_settled-Settles :
    (ps : List Stored) (ids : List String)
    → map stored_id (keep is_waiting ps) ≡ ids
    → Settles ps
        (elim ids [ [] ↦ gathered ps | id ∷ rest ↦ failed (suspended (from_keys [] (id ∷ rest))) ])
all_settled-Settles ps [] e = gives (none-waiting ps e)
all_settled-Settles ps (id ∷ ids) e =
    pauses id (from_keys (id ∷ []) ids)
      (λ a. ground (
        arith,
        contains_id-from_keys [] (id ∷ ids) a,
        ap (λ l. contains_id l a) e,
        contains_id-waiting ps a,
      ))
      (unique_ids-from_keys [] (id ∷ ids))

-- gather, when every call gave a promise: it gives them all when all have settled, and suspends the
-- task on the ids of those that wait otherwise, on each of them once and on no other.
pub gather-Settles :
    (calls : List Call) (c : Context) (ps : List Stored)
    → collect (invoke_all calls c).all_called ≡ gathered ps
    → Settles ps (gather calls c)
unfolding gather
gather-Settles calls c ps e =
    rw (gather, e) (all_settled-Settles ps (map stored_id (keep is_waiting ps)) refl)
