-- ===== src/Store/Keeps/Graphs.antt =====
-- Rows of delete_expired.sql: graphs that go, and what is pending.
use reaper.Base.{
  ◌≡◌, refl, ap, String, Bool, true, false, not, ◌&&◌, Option, none, some, List, [], ◌∷◌, All,
  All-map, if_elim, ◌==◌, string_eq, arith,
}
use reaper.Store.Types.{PromiseRow, WaitRow, is_pending, graph_id}
use reaper.Store.Rows.{
  any, keep, known, pending, pending_call, pending_timer, awaiting, find_promise,
}
use reaper.Store.Settle.{contains_id}
use reaper.Store.Suspend.{graph_of}
use reaper.Store.Maintain.{goes}
use reaper.Store.Invariant.{blockers, IsUnique}
use reaper.Store.Keeps.Submitting.{unknown-pending}

keep-any {ℓ} :
    {A : Type ℓ} (test kept : A → Bool) (xs : List A)
    → All (λ x. test x ≡ true → kept x ≡ true) xs
    → any test (keep kept xs) ≡ any test xs
keep-any test kept [] h = refl
keep-any test kept (x ∷ xs) h = ground (arith, h.0, keep-any test kept xs h.1)

pub keep-all {ℓ} :
    {A : Type ℓ} (kept : A → Bool) (xs : List A) → All (λ x. kept x ≡ true) xs → keep kept xs ≡ xs
keep-all kept [] h = refl
keep-all kept (x ∷ xs) h = rw (h.0) (ap (λ l. x ∷ l) (keep-all kept xs h.1))

pub All-keep-kept {ℓ κ} :
    {A : Type ℓ} (P : A → Type κ) (kept : A → Bool) (xs : List A)
    → All P xs
    → All (λ x. P x × (kept x ≡ true)) (keep kept xs)
All-keep-kept P kept [] h = tt
All-keep-kept P kept (x ∷ xs) h =
    if_elim (All (λ y. P y × (kept y ≡ true))) (kept x) _ _
      (λ e. ((h.0, e), All-keep-kept P kept xs h.1)) (λ _. All-keep-kept P kept xs h.1)

pub All-both {ℓ κ μ} :
    {A : Type ℓ} (P : A → Type κ) (Q : A → Type μ) (xs : List A)
    → All P xs
    → All Q xs
    → All (λ x. P x × Q x) xs
All-both P Q [] f g = tt
All-both P Q (x ∷ xs) f g = ((f.0, g.0), All-both P Q xs f.1 g.1)

-- A row of a list meets every test that no row of it fails to.
pub All-any {ℓ} :
    {A : Type ℓ} (xs : List A)
    → All (λ x. (test : A → Bool) → test x ≡ true → any test xs ≡ true) xs
All-any [] = tt
All-any {A = A} (x ∷ xs) = (
  λ test h. ground arith,
  All-map (λ y. (test : A → Bool) → test y ≡ true → any test xs ≡ true)
      (λ y. (test : A → Bool) → test y ≡ true → any test (x ∷ xs) ≡ true) xs
      (λ y f test h. ground (arith, f test h)) (All-any xs),
)

-- The row of an id is the only one.
abbrev pub IsSole : List PromiseRow → PromiseRow → Type 0
IsSole ps p =
    (test : PromiseRow → Bool) → any (λ q. test q && q.id == p.id) ps ≡ true → test p ≡ true

unknown-any :
    (ps : List PromiseRow) (a : String) (test : PromiseRow → Bool)
    → known ps a ≡ false
    → any (λ q. test q && q.id == a) ps ≡ false
unfolding known
unknown-any [] a test h = refl
unknown-any (p ∷ ps) a test h = ground (arith, unknown-any ps a test)

pub All-IsSole : (ps : List PromiseRow) → IsUnique ps → All (IsSole ps) ps
unfolding known
All-IsSole [] u = tt
All-IsSole (p ∷ ps) u = (
  λ test h. ground (arith, unknown-any ps p.id test u.0),
  All-map (λ q. (IsSole ps q) × ((test : PromiseRow → Bool) → test q ≡ true → any test ps ≡ true))
      (IsSole (p ∷ ps)) ps
      (λ q f test h. ground (
        arith,
        f.0 test,
        f.1 (λ r. r.id == p.id),
        u.0,
        string_eq.agrees p.id q.id,
        string_eq.agrees q.id p.id,
      ))
      (All-both (IsSole ps) _ ps (All-IsSole ps u.1) (All-any ps)),
)

-- A graph that goes has no pending promise.
abbrev pub IsQuiet : List String → PromiseRow → Type 0
IsQuiet roots p = is_pending p.state ≡ true → contains_id roots (graph_id p) ≡ false

module _ (roots : List String) where
  unfoldable pub stays : PromiseRow → Bool
  stays p = not (contains_id roots (graph_id p))

  pub quiet-goes :
      (ps : List PromiseRow) (a : String)
      → IsUnique ps
      → All (IsQuiet roots) ps
      → pending ps a ≡ true
      → goes roots (graph_of ps a) ≡ false
  unfolding pending find_promise
  quiet-goes [] a u q h = ground arith
  quiet-goes (p ∷ ps) a u q h =
      if_elim {A = Option PromiseRow}
        (λ g. goes roots (elim g [ none ↦ none | some r ↦ some (graph_id r) ]) ≡ false) (p.id == a)
        _ _ (λ e. ground (arith, q.0, unknown-pending ps p.id u.0, string_eq.agrees p.id a, h))
        (λ e. quiet-goes ps a u.1 q.1 (ground (arith, h, e)))

  pub graph_of-keep :
      (ps : List PromiseRow) (a g : String)
      → graph_of ps a ≡ some g
      → contains_id roots g ≡ false
      → graph_of (keep stays ps) a ≡ some g
  unfolding find_promise stays
  graph_of-keep [] a g h k = h
  graph_of-keep (p ∷ ps) a g h k = ground (arith, graph_of-keep ps a g)

  pub known-keep :
      (ps : List PromiseRow) (a : String) → known ps a ≡ false → known (keep stays ps) a ≡ false
  unfolding known
  known-keep [] a h = h
  known-keep (p ∷ ps) a h = ground (arith, known-keep ps a)

  pub IsUnique-keep : (ps : List PromiseRow) → IsUnique ps → IsUnique (keep stays ps)
  IsUnique-keep [] u = tt
  IsUnique-keep (p ∷ ps) u =
      if_elim IsUnique (stays p) _ _ (λ _. (known-keep ps p.id u.0, IsUnique-keep ps u.1))
        (λ _. IsUnique-keep ps u.1)

  -- Deleting quiet graphs leaves what is pending.
  quiet-any :
      (test : PromiseRow → Bool) (ps : List PromiseRow)
      → ((p : PromiseRow) → test p ≡ true → is_pending p.state ≡ true)
      → All (IsQuiet roots) ps
      → any test (keep stays ps) ≡ any test ps
  unfolding stays
  quiet-any test ps f q = keep-any test stays ps (
      All-map (IsQuiet roots) (λ p. test p ≡ true → stays p ≡ true) ps
        (λ p k h. ground (arith, k (f p h))) q)

  module _ (ps : List PromiseRow) (q : All (IsQuiet roots) ps) where
    pending-keep : (a : String) → pending (keep stays ps) a ≡ pending ps a
    unfolding pending
    pending-keep a = quiet-any _ ps (λ p h. ground arith) q

    pub pending_call-keep : (a : String) → pending_call (keep stays ps) a ≡ pending_call ps a
    unfolding pending_call
    pending_call-keep a = quiet-any _ ps (λ p h. ground arith) q

    pub pending_timer-keep : (a : String) → pending_timer (keep stays ps) a ≡ pending_timer ps a
    unfolding pending_timer
    pending_timer-keep a = quiet-any _ ps (λ p h. ground arith) q

    pub awaiting-pending-keep :
        (ws : List WaitRow) (a : String) → blockers (keep stays ps) ws a ≡ blockers ps ws a
    unfolding awaiting
    awaiting-pending-keep [] a = refl
    awaiting-pending-keep (w ∷ ws) a =
        ground (arith, pending-keep w.awaited_id, awaiting-pending-keep ws a)
