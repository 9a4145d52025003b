-- ===== src/Control/Closed.antt =====
-- A core of reaper/control.py that has closed holds no job, whatever its history.
use reaper.Base.{
  ℕ, ◌≡◌, refl, sym, ap, ◌∙◌, true, List, [], ◌∷◌, ◌++◌, All, Bool-cases, inl, inr, nat_eq,
}
use mathlib.Core.Bool.{true≢false}
use reaper.Base.Dict.{Dict, values}
use reaper.Control.Types.{EventKind, ControlEvent, ControlEffect, ControlSlot, ReaperCore}
use reaper.Control.Core.{jobs, slot_jobs, is_running}
use reaper.Control.Effects.{IsSound, idle_job}
use reaper.Control.Closing.{IsClosed, IsStopping, transition-IsSilent, transition-close}
use reaper.Control.Shut.{is_close, transition-Leaves}
use reaper.Control.Histories.{Reached, begin, next, init→empty_core, Reached-IsValid}

closes : (k : EventKind) → is_close k ≡ true → k ≡ EventKind.close
closes EventKind.close h = refl
closes EventKind.start h = cc
closes k h = cc

-- Every core that a history brought to closing is closed: its queue is empty and its slots stop.
pub Reached-IsClosed :
    {n : ℕ} {es : List ControlEvent} {c : ReaperCore} {fx : List ControlEffect}
    → Reached n es c fx
    → c.closing ≡ true
    → IsClosed c
Reached-IsClosed {n} (begin c h) shut =
    absurd
      (true≢false (sym shut ∙ ap (λ (x : ReaperCore). x.closing) (sym (init→empty_core n c h))))
Reached-IsClosed (next {c = c} e r d) shut = elim (Bool-cases c.closing) [
  | inl before ↦ (transition-IsSilent c e (Reached-IsClosed r before)).0
  | inr open_ ↦ elim (Bool-cases (is_close e.kind)) [
    | inl now ↦ (transition-close c e (closes e.kind now) open_).0
    | inr other ↦ absurd (true≢false (sym shut ∙ transition-Leaves c e other ∙ open_))
  ]
]

stopping-jobs :
    (d : Dict ℕ ControlSlot) → All IsSound d → All IsStopping d → slot_jobs (values d) ≡ []
stopping-jobs [] sound stops = refl
stopping-jobs ((fd, s) ∷ d) sound stops =
    ap (λ js. js ++ slot_jobs (values d)) (idle_job s (sound.0.busy ∙ ap is_running stops.0))
    ∙ stopping-jobs d sound.1 stops.1

pub Reached-no_jobs :
    {n : ℕ} {es : List ControlEvent} {c : ReaperCore} {fx : List ControlEffect}
    → Reached n es c fx
    → c.closing ≡ true
    → jobs c ≡ []
Reached-no_jobs {c = c} r shut =
    let closed = Reached-IsClosed r shut in
    ap (λ q. q ++ slot_jobs (values c.slots)) closed.queue
    ∙ stopping-jobs c.slots (Reached-IsValid r).orderly.sound closed.slots
