-- ===== src/Pool/Heartbeat.antt =====
-- HeartbeatWatch.observe of reaper/pool.py. A marker is the eight bytes read, as a number, and a time
-- is a natural number of clock ticks: the event loop's clock does not run backwards, and with a
-- timeout above zero a truncated difference passes the same tests as a negative one.
use reaper.Base.{
  ℕ, ◌+◌, ◌-◌, ◌≤◌, ◌<◌, ◌≡◌, refl, subst, sym, Bool, true, false, not, ◌&&◌, ◌||◌, Option, none,
  some, List, [], ◌∷◌, if◌then◌else◌, if_elim, ◌==◌, nat_eq, ltb, leb, arith,
}

pub record HeartbeatWatch : Type 0 where
  pub marker : ℕ
  pub unchanged_since : ℕ
  pub checked_at : ℕ

-- HeartbeatWatch()
abbrev pub init : HeartbeatWatch
init = record { marker = 0; unchanged_since = 0; checked_at = 0 }

-- `self.checked_at > 0 and now - self.checked_at > timeout`
abbrev pub observer_paused : HeartbeatWatch → ℕ → ℕ → Bool
observer_paused w now timeout = ltb 0 w.checked_at && ltb timeout (now - w.checked_at)

-- The probe is the first, comes late, or reads another marker.
abbrev pub is_sign : HeartbeatWatch → ℕ → ℕ → ℕ → Bool
is_sign w marker now timeout =
    w.checked_at == 0 || (observer_paused w now timeout || not (marker == w.marker))

-- `observe` behind its guard: the watch after a probe, and whether the child counts as alive.
unfoldable pub probe : HeartbeatWatch → ℕ → ℕ → ℕ → HeartbeatWatch × Bool
probe w marker now timeout =
    if is_sign w marker now timeout
    then (record { marker = marker; unchanged_since = now; checked_at = now }, true)
    else (record w { checked_at = now }, ltb (now - w.unchanged_since) timeout)

-- `none` is the ValueError.
unfoldable pub observe : HeartbeatWatch → ℕ → ℕ → ℕ → Option (HeartbeatWatch × Bool)
observe w marker now timeout = if leb timeout 0 then none else some (probe w marker now timeout)

-- A probe: the time and the marker that it read.
abbrev pub Probe : Type 0
Probe = ℕ × ℕ

-- `probes`, newest first, saw `marker` from time `since` on, with no pause above `timeout` between
-- two of them up to time `until`.
pub data Steady (timeout marker since : ℕ) : ℕ → List Probe → Type 0 where
  begun : (rest : List Probe) → Steady timeout marker since since ((since, marker) ∷ rest)
  held :
      {until : ℕ} {probes : List Probe} (now : ℕ)
      → Steady timeout marker since until probes
      → now - until ≤ timeout
      → Steady timeout marker since now ((now, marker) ∷ probes)

-- What a watch that has been probed stands for.
abbrev pub Watches : ℕ → HeartbeatWatch → List Probe → Type 0
Watches timeout w [] = w ≡ init
Watches timeout w (p ∷ probes) = Steady timeout w.marker w.unchanged_since w.checked_at (p ∷ probes)

-- The verdict `false` is given only for a window at least as long as the timeout.
abbrev Told : ℕ → ℕ → ℕ → List Probe → HeartbeatWatch × Bool → Type 0
Told timeout now marker probes r =
    Watches timeout r.0 ((now, marker) ∷ probes)
    × (r.1 ≡ false → r.0.unchanged_since + timeout ≤ now)

extends :
    (timeout now marker : ℕ) (w : HeartbeatWatch) (probes : List Probe)
    → Watches timeout w probes
    → is_sign w marker now timeout ≡ false
    → Steady timeout w.marker w.unchanged_since now ((now, marker) ∷ probes)
extends timeout now marker w [] h quiet = absurd (cc)
extends timeout now marker w (p ∷ probes) h quiet =
    let same : marker ≡ w.marker = ground arith in
    subst (λ m. Steady timeout w.marker w.unchanged_since now ((now, m) ∷ p ∷ probes)) (sym same)
      (held now h (ground arith))

probe-Told :
    (timeout now marker : ℕ) (w : HeartbeatWatch) (probes : List Probe)
    → 0 < timeout
    → Watches timeout w probes
    → Told timeout now marker probes (probe w marker now timeout)
unfolding probe
probe-Told timeout now marker w probes pos h =
    if_elim (Told timeout now marker probes) (is_sign w marker now timeout) _ _
      (λ _. (begun probes, λ p. cc))
      (λ quiet. (extends timeout now marker w probes h quiet, λ dead. ground arith))

probed :
    (timeout now marker : ℕ) (w w' : HeartbeatWatch) (alive : Bool) (probes : List Probe)
    → Watches timeout w probes
    → observe w marker now timeout ≡ some (w', alive)
    → Told timeout now marker probes (w', alive)
unfolding observe
probed timeout now marker w w' alive probes h e =
    let pos : 0 < timeout = ground (arith, e) in
    let same : probe w marker now timeout ≡ (w', alive) = ground (arith, e) in
    subst (Told timeout now marker probes) same (probe-Told timeout now marker w probes pos h)

-- A probe keeps the watch true to the history of probes.
pub observe-Watches :
    (timeout now marker : ℕ) (w w' : HeartbeatWatch) (alive : Bool) (probes : List Probe)
    → Watches timeout w probes
    → observe w marker now timeout ≡ some (w', alive)
    → Watches timeout w' ((now, marker) ∷ probes)
observe-Watches timeout now marker w w' alive probes h e =
    (probed timeout now marker w w' alive probes h e).0

-- A child is given up only when the probes since a time that lies the timeout or longer back, none of
-- them late, all read the marker that the watch holds.
pub observe-dead :
    (timeout now marker : ℕ) (w w' : HeartbeatWatch) (probes : List Probe)
    → Watches timeout w probes
    → observe w marker now timeout ≡ some (w', false)
    → (w'.unchanged_since + timeout ≤ now)
      × Steady timeout w'.marker w'.unchanged_since w'.checked_at ((now, marker) ∷ probes)
observe-dead timeout now marker w w' probes h e =
    let told = probed timeout now marker w w' false probes h e in (told.1 refl, told.0)
