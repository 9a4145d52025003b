-- ===== src/Pool/Tidy.antt =====
-- spawn_effect in reaper/pool.py: what it leaves open, and when it starts a child.
use reaper.Base.{
  ℕ, zero, suc, ◌-◌, ◌≤◌, ◌<◌, ◌≡◌, refl, Bool, true, false, if_elim, ◌==◌, nat_eq, ltb, arith,
  Bool-cases, inl, inr, ◌⊎◌,
}
use reaper.Pool.Spawn.{
  ◌>>=◌, Attempt, Held, IsTidy, Spawned, System, acquire, call, failed, fault, finally, given_up,
  going, max_child_config, none_held, settle, slot_held, spawn_effect, started, too_large,
  write_all,
}

-- A spawn whose calls all succeed, and that writes some of every rest.
pub record Works (sys : System) : Type 0 where
  pub fits : sys.config_size ≤ max_child_config
  pub socket_pair : sys.socket_pair ≡ true
  pub death_pipe : sys.death_pipe ≡ true
  pub config_pipe : sys.config_pipe ≡ true
  pub dup_control : sys.dup_control ≡ true
  pub dup_death : sys.dup_death ≡ true
  pub dup_config : sys.dup_config ≡ true
  pub open_beat : sys.open_beat ≡ true
  pub write_marker : sys.write_marker ≡ true
  pub dup_beat : sys.dup_beat ≡ true
  pub posix_spawn : sys.posix_spawn ≡ true
  pub writes : (n : ℕ) → 0 < n → 0 < sys.write_config n

-- What `acquire` leaves open, by the call that fails.
Leaves : Attempt → Type 0
Leaves (going h) = finally h ≡ slot_held
Leaves (fault h) = given_up (finally h) ≡ none_held

call_elim :
    (P : Attempt → Type 0) (b : Bool) (x y : Held) (f : Held → Attempt)
    → P (f x)
    → P (fault y)
    → P (call b x y >>= f)
call_elim P true x y f p q = p
call_elim P false x y f p q = q

call_end :
    (P : Attempt → Type 0) (b : Bool) (x y : Held) → P (going x) → P (fault y) → P (call b x y)
call_end P true x y p q = p
call_end P false x y p q = q

acquire-Leaves : (sys : System) → Leaves (acquire sys none_held)
unfolding acquire Leaves
acquire-Leaves sys =
    call_elim Leaves sys.socket_pair _ _ _
      (call_elim Leaves sys.death_pipe _ _ _
        (call_elim Leaves sys.config_pipe _ _ _
          (call_elim Leaves sys.dup_control _ _ _
            (call_elim Leaves sys.dup_death _ _ _
              (call_elim Leaves sys.dup_config _ _ _
                (call_elim Leaves sys.open_beat _ _ _
                  (call_elim Leaves sys.write_marker _ _ _
                    (call_elim Leaves sys.dup_beat _ _ _
                      (call_elim Leaves (write_all sys.write_config sys.config_size sys.config_size)
                        _ _ _ (call_end Leaves sys.posix_spawn _ _ refl refl) refl)
                      refl)
                    refl)
                  refl)
                refl)
              refl)
            refl)
          refl)
        refl)
      refl

settle-IsTidy : (sys : System) (a : Attempt) → Leaves a → IsTidy (settle sys a)
unfolding Leaves
settle-IsTidy sys (going h) e = e
settle-IsTidy sys (fault h) e = e

-- Whichever call of a spawn fails, every descriptor that the spawn had opened is closed again; after a
-- success exactly the parent's socket, the death writer and the heartbeat file stay open.
pub spawn_effect-IsTidy : (sys : System) → IsTidy (spawn_effect sys)
unfolding spawn_effect
spawn_effect-IsTidy sys =
    if_elim IsTidy (ltb max_child_config sys.config_size) too_large
      (settle sys (acquire sys none_held)) (λ _. tt)
      (λ _. settle-IsTidy sys (acquire sys none_held) (acquire-Leaves sys))

write_all-ends :
    (write : ℕ → ℕ) (fuel left : ℕ)
    → ((n : ℕ) → 0 < n → 0 < write n)
    → left ≤ fuel
    → write_all write fuel left ≡ true
unfolding write_all
write_all-ends write fuel zero w h = refl
write_all-ends write zero (suc left) w h = absurd (omega arith)
write_all-ends write (suc fuel) (suc left) w h = elim (Bool-cases (write (suc left) == 0)) [
  | inl stuck ↦ absurd (ground (arith, w (suc left)))
  | inr goes ↦
      rw (goes, write_all)
        (write_all-ends write fuel (suc left - write (suc left)) w
          (omega (arith, w (suc left) (omega arith))))
]

-- A spawn whose configuration fits, whose calls all succeed and whose every write takes some of the
-- rest starts the child: the loop that writes the configuration ends.
pub spawn_effect-starts :
    (sys : System) → Works sys → spawn_effect sys ≡ started sys.fd sys.pid slot_held
unfolding spawn_effect acquire
spawn_effect-starts sys w =
    let whole =
      write_all-ends sys.write_config sys.config_size sys.config_size w.writes (omega arith) in
    ground (arith, w.fits, whole)

-- With a configuration that fits, a spawn gives the slot of the new socket or an exception as its value.
pub spawn_effect-cases :
    (sys : System)
    → sys.config_size ≤ max_child_config
    → ((held : Held) × (spawn_effect sys ≡ started sys.fd sys.pid held))
      ⊎ ((held : Held) × (spawn_effect sys ≡ failed held))
unfolding spawn_effect
spawn_effect-cases sys fits =
    if_elim Ends (ltb max_child_config sys.config_size) too_large
      (settle sys (acquire sys none_held)) (λ large. absurd (ground (arith, large)))
      (λ _. settled (acquire sys none_held))
  where
    Ends : Spawned → Type 0
    Ends s =
        ((held : Held) × (s ≡ started sys.fd sys.pid held)) ⊎ ((held : Held) × (s ≡ failed held))

    settled : (a : Attempt) → Ends (settle sys a)
    settled (going h) = inl (finally h, refl)
    settled (fault h) = inr (given_up (finally h), refl)
