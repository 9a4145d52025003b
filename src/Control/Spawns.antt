-- ===== src/Control/Spawns.antt =====
-- The generations and the capacity of ReaperCore in reaper/control.py under every method.
use reaper.Base.{
  ℕ, suc, zero, ◌+◌, ◌≤◌, ◌<◌, ◌≡◌, refl, ap, true, false, none, some, [], ◌∷◌, ◌++◌, arith,
  contains, count, count-append, count-discard_first, length-discard_first, discard_first, one,
  length-append, IsDistinct, string_eq, nat_eq, ◌==◌, length, Bool-cases, inl, inr, not, ◌&&◌, ltb,
}
use reaper.Base.Dict.{Dict, values, get, put, remove, total-put, total-remove}
use reaper.Control.Types.{
  SkeletonId, SkeletonState, EventKind, ControlSlot, ControlEvent, ReaperCore,
}
use reaper.Control.Core.{fill_loop, fill, admitted}
use reaper.Control.Apply.{gens, slot_gens}
use reaper.Control.Effects.{length-total}
use reaper.Control.Invariant.{count-gens, length-replace, gens-replace}

-- A SPAWNED event names a child whose identity carries the generation that was asked for.
abbrev pub IsMatched : EventKind → ControlEvent → Type 0
IsMatched EventKind.spawned e =
    (g : ℕ) (i : SkeletonId) → e.gen ≡ some g → e.identity ≡ some i → i.gen ≡ g
IsMatched k e = Unit

pub record IsIssued (c : ReaperCore) : Type 0 where
  pub fits : length c.slots + length c.pending_spawns ≤ c.target
  pub fresh : IsDistinct (gens c)
  pub issued : (g : ℕ) → c.next_gen < g → count g (gens c) ≡ 0
  pub drained : c.closing ≡ true → c.pending_spawns ≡ []

abbrev grown : ReaperCore → ReaperCore
grown c = record c {
  next_gen = suc c.next_gen;
  pending_spawns = c.pending_spawns ++ suc c.next_gen ∷ [];
}

gens-grown :
    (g : ℕ) (c : ReaperCore)
    → count g (gens (grown c)) ≡ count g (gens c) + one (suc c.next_gen == g)
gens-grown g c = omega (
  arith,
  count-append g (c.pending_spawns ++ suc c.next_gen ∷ []) (slot_gens (values c.slots)),
  count-append g c.pending_spawns (suc c.next_gen ∷ []),
  count-append g c.pending_spawns (slot_gens (values c.slots)),
)

IsIssued-grown :
    (c : ReaperCore)
    → c.closing ≡ false
    → length c.slots + length c.pending_spawns < c.target
    → IsIssued c
    → IsIssued (grown c)
IsIssued-grown c open_ room h = record {
  fits = omega (arith, length-append c.pending_spawns (suc c.next_gen ∷ []));
  fresh = λ g. ground (arith, gens-grown g c, h.fresh g, h.issued g);
  issued = λ g p. ground (arith, gens-grown g c, h.issued g);
  drained = λ p. cc;
}

IsIssued-fill_loop :
    (fuel n : ℕ) (c : ReaperCore)
    → n ≡ length c.slots + length c.pending_spawns
    → IsIssued c
    → IsIssued (fill_loop fuel n c).0
unfolding fill_loop
IsIssued-fill_loop zero n c e h = h
IsIssued-fill_loop (suc fuel) n c e h = elim (Bool-cases (not c.closing && ltb n c.target)) [
  | inl more ↦
      rw (more, fill_loop)
        (IsIssued-fill_loop fuel (suc n) (grown c)
          (omega (arith, e, length-append c.pending_spawns (suc c.next_gen ∷ [])))
          (IsIssued-grown c (ground arith) (ground (arith, more)) h))
  | inr done ↦ rw (done, fill_loop) h
]

pub IsIssued-fill : (c : ReaperCore) → IsIssued c → IsIssued (fill c).0
unfolding fill
IsIssued-fill c h = IsIssued-fill_loop c.target _ c refl h

-- A core whose generations are among those of another, and that holds no more slots.
pub IsIssued-le :
    (c d : ReaperCore)
    → IsIssued c
    → length d.slots + length d.pending_spawns ≤ length c.slots + length c.pending_spawns
    → ((g : ℕ) → count g (gens d) ≤ count g (gens c))
    → d.target ≡ c.target
    → d.next_gen ≡ c.next_gen
    → (d.closing ≡ true → d.pending_spawns ≡ [])
    → IsIssued d
IsIssued-le c d h size sub target next drained = record {
  fits = omega (arith, h.fits);
  fresh = λ g. omega (arith, h.fresh g, sub g);
  issued = λ g p. omega (arith, h.issued g (omega arith), sub g);
  drained = drained;
}

length-put-le :
    (d : Dict ℕ ControlSlot) (k : ℕ) (s : ControlSlot) → length (put d k s) ≤ suc (length d)
length-put-le d k s =
    omega (arith, length-total d, length-total (put d k s), total-put (λ x. 1) d k s)

module _ (c : ReaperCore) (h : IsIssued c) where
  pub IsIssued-dropped :
      (g : ℕ)
      → contains c.pending_spawns g ≡ true
      → IsIssued (record c { pending_spawns = discard_first g c.pending_spawns })
  IsIssued-dropped g known =
      IsIssued-le c _ h (omega (arith, length-discard_first g c.pending_spawns known))
        (λ a. omega (
          arith,
          count-gens a c,
          count-gens a (record c { pending_spawns = discard_first g c.pending_spawns }),
          count-discard_first g a c.pending_spawns known,
        ))
        refl refl (λ p. rw (h.drained p))

  pub IsIssued-admitted :
      (g : ℕ) (i : SkeletonId)
      → c.closing ≡ false
      → contains c.pending_spawns g ≡ true
      → i.gen ≡ g
      → IsIssued (admitted c g i)
  IsIssued-admitted g i open_ known match =
      IsIssued-le c (admitted c g i) h
        (omega (
          arith,
          length-discard_first g c.pending_spawns known,
          length-put-le c.slots i.fd
              (record { identity = i; state = SkeletonState.starting; job = none }),
        ))
        (λ a. omega (
          arith,
          count-gens a c,
          count-gens a (admitted c g i),
          count-discard_first g a c.pending_spawns known,
          ap (λ (n : ℕ). one (n == a)) match,
          total-put (λ x. one (x.identity.gen == a)) c.slots i.fd
              (record { identity = i; state = SkeletonState.starting; job = none }),
        ))
        refl refl (λ p. cc)

  pub IsIssued-put :
      (s t : ControlSlot)
      → get c.slots s.identity.fd ≡ some s
      → t.identity ≡ s.identity
      → IsIssued (record c { slots = put c.slots s.identity.fd t })
  IsIssued-put s t found kept =
      IsIssued-le c _ h (omega (arith, length-replace c s t found kept))
        (λ a. omega (arith, gens-replace c s t found kept a)) refl refl h.drained

  pub IsIssued-remove : (fd : ℕ) → IsIssued (record c { slots = remove c.slots fd })
  IsIssued-remove fd =
      IsIssued-le c _ h
        (omega (
          arith,
          length-total c.slots,
          length-total (remove c.slots fd),
          total-remove (λ x. 1) c.slots fd,
        ))
        (λ a. omega (
          arith,
          count-gens a c,
          count-gens a (record c { slots = remove c.slots fd }),
          total-remove (λ x. one (x.identity.gen == a)) c.slots fd,
        ))
        refl refl h.drained
