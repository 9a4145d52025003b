-- ===== src/Control/Capacity.antt =====
-- `fill` of reaper/control.py: an open pool asks for exactly the children that are missing.
use reaper.Base.{
  ℕ, suc, zero, ◌+◌, ◌-◌, ◌≤◌, ◌≡◌, refl, ap, true, false, not, ◌&&◌, List, [], ◌∷◌, ◌++◌, arith,
  ltb, length, length-append,
}
use reaper.Control.Types.{ControlEffect, ReaperCore}
use reaper.Control.Core.{fill, fill_loop, spawn_of}

abbrev pub live : ReaperCore → ℕ
live c = length c.slots + length c.pending_spawns

-- SPAWN effects for the generations after `g`, `n` of them.
abbrev pub spawns : ℕ → ℕ → List ControlEffect
spawns g zero = []
spawns g (suc n) = spawn_of (suc g) ∷ spawns (suc g) n

-- `m` children are missing, and the fuel covers them.
fill_loop-live :
    (fuel n m : ℕ) (c : ReaperCore)
    → c.closing ≡ false
    → n ≡ live c
    → n + m ≡ c.target
    → m ≤ fuel
    → (live (fill_loop fuel n c).0 ≡ c.target) × ((fill_loop fuel n c).1 ≡ spawns c.next_gen m)
unfolding fill_loop
fill_loop-live zero n zero c open_ e total enough = (omega arith, refl)
fill_loop-live (suc fuel) n zero c open_ e total enough = ground arith
fill_loop-live zero n (suc m) c open_ e total enough = absurd (omega arith)
fill_loop-live (suc fuel) n (suc m) c open_ e total enough =
    let more : (not c.closing && ltb n c.target) ≡ true = ground arith in
    let ih =
      fill_loop-live fuel (suc n) m
        (record c {
          next_gen = suc c.next_gen;
          pending_spawns = c.pending_spawns ++ suc c.next_gen ∷ [];
        })
        open_ (omega (arith, length-append c.pending_spawns (suc c.next_gen ∷ []))) (omega arith)
        (omega arith) in
    rw (more, fill_loop) (ih.0, ap (◌∷◌ (spawn_of (suc c.next_gen))) ih.1)

-- An open pool within its target is filled up to it: the live and the pending children are then as
-- many as the target, and the effects are one SPAWN for each missing child, with the next
-- generations in order. The fuel of the loop, the target, is enough.
pub fill_lem :
    (c : ReaperCore)
    → c.closing ≡ false
    → live c ≤ c.target
    → (live (fill c).0 ≡ c.target) × ((fill c).1 ≡ spawns c.next_gen (c.target - live c))
unfolding fill
fill_lem c open_ fits =
    fill_loop-live c.target (live c) (c.target - live c) c open_ refl (omega arith) (omega arith)
