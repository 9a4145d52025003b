-- ===== src/Listener/Connections.antt =====
-- What the methods of PostgresListener in reaper/postgres.py keep.
use reaper.Base.{
  ◌&&◌, ◌==◌, nat_eq, ltb, min, ℕ, ◌≤◌, ◌+◌, ◌<◌, ◌-◌, ◌≡◌, refl, Bool, true, false, not, ◌||◌,
  if◌then◌else◌, if_elim, leb, List, [], ◌∷◌, one, arith, sym, ap, subst,
}
use reaper.Listener.Core.{
  PostgresListener, ListenerActivity, ListenerWake, Ended, returned, raised, Connect, Maintain,
  connect, close, run_probe, maintain, arm, receive, timeout, answered, gone, other, wait, recycle,
  disarm, with_wake,
}

-- Every connection that was opened is closed again, but for the one that the listener holds.
abbrev pub IsBalanced : PostgresListener → Type 0
IsBalanced l = l.opened ≡ l.closed + one l.connection

abbrev pub left {ℓ} : {A : Type ℓ} → Ended A → PostgresListener
left (returned a l) = l
left (raised l) = l

abbrev Balanced {ℓ} : {A : Type ℓ} → Ended A → Type 0
Balanced e = IsBalanced (left e)

Balanced-connect : (c : Connect) (l : PostgresListener) → IsBalanced l → Balanced (connect c l)
unfolding connect
Balanced-connect c l h = ground arith

Balanced-close : (closes : Bool) (l : PostgresListener) → IsBalanced l → Balanced (close closes l)
unfolding close
Balanced-close closes l h = ground arith

Balanced-recycle : (e : Ended {0} Unit) → Balanced e → Balanced (recycle e)
Balanced-recycle (returned u l) h = h
Balanced-recycle (raised l) h = h

Balanced-run_probe : (m : Maintain) (l : PostgresListener) → IsBalanced l → Balanced (run_probe m l)
unfolding run_probe
Balanced-run_probe m l h =
    elim m.probe
      as (λ p. Balanced (elim p as (λ x. Ended ListenerActivity) [
        | answered later ↦ returned ListenerActivity.probed (record l { probed_at = later })
        | gone ↦ recycle (connect m.connect l)
        | other ↦ raised l
      ])) [
        | answered later ↦ h
        | gone ↦ Balanced-recycle (connect m.connect l) (Balanced-connect m.connect l h)
        | other ↦ h
      ]

Balanced-maintain : (m : Maintain) (l : PostgresListener) → IsBalanced l → Balanced (maintain m l)
unfolding maintain
Balanced-maintain m l h =
    if_elim Balanced
      (not l.connection || m.is_closed || leb l.recycle_rate (m.now - l.connected_at)) _ _
      (λ _. Balanced-recycle (connect m.connect l) (Balanced-connect m.connect l h))
      (λ _.
        if_elim Balanced (leb l.probe_rate (m.now - l.probed_at)) _ _
          (λ _. Balanced-run_probe m l h) (λ _. h))

Balanced-disarm : (e : Ended ListenerActivity) → Balanced e → Balanced (disarm e)
Balanced-disarm (returned a l) h = h
Balanced-disarm (raised l) h = h

Balanced-with_wake :
    (w : ListenerWake) (e : Ended ListenerActivity) → Balanced e → Balanced (with_wake w e)
Balanced-with_wake w (returned a l) h = h
Balanced-with_wake w (raised l) h = h

-- A caller's use of the listener, from the connection that `listen` makes on.
pub data Use : Type 0 where
  connects : Connect → Use
  arms : Maintain → Use
  receives : Use
  waits : ℕ → ℕ → Bool → Maintain → Use
  closes : Bool → Use

unfoldable pub use_listener : Use → PostgresListener → PostgresListener
unfolding connect arm receive wait close
use_listener (connects c) l = left (connect c l)
use_listener (arms m) l = left (arm m l)
use_listener receives l = receive l
use_listener (waits fallback_rate now arrives m) l = left (wait fallback_rate now arrives m l)
use_listener (closes ok) l = left (close ok l)

unfoldable pub run : List Use → PostgresListener → PostgresListener
unfolding use_listener
run [] l = l
run (u ∷ us) l = run us (use_listener u l)

IsBalanced-use_listener :
    (u : Use) (l : PostgresListener) → IsBalanced l → IsBalanced (use_listener u l)
unfolding use_listener arm receive wait
IsBalanced-use_listener (connects c) l h = Balanced-connect c l h
IsBalanced-use_listener (arms m) l h = Balanced-disarm (maintain m l) (Balanced-maintain m l h)
IsBalanced-use_listener receives l h = h
IsBalanced-use_listener (waits fallback_rate now arrives m) l h =
    Balanced-with_wake _ (maintain m (if arrives then record l { notified = true } else l)) (
      if_elim (λ x. Balanced (maintain m x)) arrives _ _
        (λ _. Balanced-maintain m (record l { notified = true }) h) (λ _. Balanced-maintain m l h))
IsBalanced-use_listener (closes ok) l h = Balanced-close ok l h

-- Whatever the driver does, a listener that is used any number of times holds at most the one connection
-- that it has not closed: opened and closed connections differ by the one that it holds.
pub run-IsBalanced : (us : List Use) (l : PostgresListener) → IsBalanced l → IsBalanced (run us l)
unfolding run
run-IsBalanced [] l h = h
run-IsBalanced (u ∷ us) l h = run-IsBalanced us (use_listener u l) (IsBalanced-use_listener u l h)

abbrev pub Wakes : ListenerWake → Ended (ListenerWake × ListenerActivity) → Type 0
Wakes w (returned v l) = v.0 ≡ w
Wakes w (raised l) = Unit

disarmed :
    (e : Ended ListenerActivity) (a : ListenerActivity) (l : PostgresListener)
    → disarm e ≡ returned a l
    → l.notified ≡ false
disarmed (returned b k) a l h = ap (λ (x : Ended ListenerActivity). (left x).notified) (sym h)
disarmed (raised k) a l h = absurd (cc)

Wakes-with_wake : (w : ListenerWake) (e : Ended ListenerActivity) → Wakes w (with_wake w e)
Wakes-with_wake w (returned a l) = refl
Wakes-with_wake w (raised l) = tt

-- A wait that follows `arm` and returns says NOTIFIED when a notification has come since, before the wait
-- or during it, and neither a probe nor recycling nor the fallback is due at its start; it says FALLBACK
-- otherwise, so a notification is passed over only where the wait ends at once.
pub wait-arm :
    (m later : Maintain) (l armed : PostgresListener) (a : ListenerActivity) (fallback_rate now : ℕ)
    (early arrives : Bool)
    → arm m l ≡ returned a armed
    → Wakes
        (if (early || arrives)
            && (ltb 0 fallback_rate
                && (ltb (now - armed.connected_at) armed.recycle_rate
                    && ltb (now - armed.probed_at) armed.probe_rate))
          then ListenerWake.notified
          else ListenerWake.fallback)
        (wait fallback_rate now arrives later (if early then receive armed else armed))
unfolding arm wait receive timeout
wait-arm m later l armed a fallback_rate now early arrives h = go early arrives
  where
    quiet : armed.notified ≡ false
    quiet = disarmed (maintain m l) a armed h

    told : Bool → ListenerWake
    told b = if b then ListenerWake.notified else ListenerWake.fallback

    sleeps : Bool
    sleeps = not (
        min fallback_rate (
          min (armed.recycle_rate - (now - armed.connected_at))
            (armed.probe_rate - (now - armed.probed_at)))
        == 0)

    calm : Bool
    calm =
        ltb 0 fallback_rate
        && (ltb (now - armed.connected_at) armed.recycle_rate
            && ltb (now - armed.probed_at) armed.probe_rate)

    same : sleeps ≡ calm
    same = ground arith

    woken :
        (b c : Bool) (l : PostgresListener)
        → b ≡ c
        → Wakes (told c) (with_wake (told b) (maintain later l))
    woken b c l e =
        subst (λ x. Wakes (told x) (with_wake (told b) (maintain later l))) e (Wakes-with_wake _ _)

    go :
        (early arrives : Bool)
        → Wakes
            (told ((early || arrives) && calm))
            (wait fallback_rate now arrives later (if early then receive armed else armed))
    go true true = woken sleeps calm _ same
    go true false = woken sleeps calm _ same
    go false true = woken sleeps calm _ same
    go false false = woken (armed.notified && sleeps) false armed (rw quiet refl)

-- When the sleep of `wait` is shorter than the fallback, and the clock is not behind the listener's
-- times, maintenance is due at its end: the connection is as old as the recycle rate, or its last probe
-- as the probe rate.
pub timeout-due :
    (fallback_rate now : ℕ) (l : PostgresListener)
    → l.connected_at ≤ now
    → l.probed_at ≤ now
    → timeout fallback_rate now l < fallback_rate
    → (leb l.recycle_rate (now + timeout fallback_rate now l - l.connected_at)
        || leb l.probe_rate (now + timeout fallback_rate now l - l.probed_at))
      ≡ true
unfolding timeout
timeout-due fallback_rate now l made asked short = ground arith
