-- ===== src/Graceful/Bounded.antt =====
-- How long RunT goes on when its context is done.
use golibs.Prelude.{
  ℕ, suc, ◌+◌, ◌≤◌, ◌<◌, Bool, true, false, some, is_some, ◌≡◌, refl, arith, Option-cases, inl, inr,
  subst, sym,
}
use golibs.Graceful.{
  Phase, waiting, stopping, ended, RunState, Step, wake, collect, give_up, Event, cancel, complete,
  ready, phase_ready, Run, here, step, event, tick, HasEnded, value_of, error_of,
  err_shutdown_timeout,
}

module _ {T : Type 0} (timeout : ℕ) (s : RunState T) where
  -- What a phase says behind some ticks.
  abbrev InTime : ℕ → ℕ → Phase T → Type 0
  InTime n clock waiting = n ≡ 0
  InTime n clock (stopping d) = (d ≡ s.clock + timeout) × (clock ≤ d)
  InTime n clock (ended v e) = Unit

  record Holds (n : ℕ) (t : RunState T) : Type 0 where
    done : t.done ≡ true
    clock : t.clock ≡ s.clock + n
    in_time : InTime n t.clock t.phase

  Holds-Step : {n : ℕ} {t u : RunState T} → Step timeout t u → Holds n t → Holds n u
  Holds-Step {n} (wake t w r) h =
      let none_passed : n ≡ 0 = subst (InTime n t.clock) w h.in_time in
      let now = h.clock in record { done = h.done; clock = h.clock; in_time = omega arith }
  Holds-Step (collect t d r p w) h = record { done = h.done; clock = h.clock; in_time = tt }
  Holds-Step (give_up t d p l) h = record { done = h.done; clock = h.clock; in_time = tt }

  Holds-Event : {n : ℕ} {t u : RunState T} → Event t u → Holds n t → Holds n u
  Holds-Event (cancel t) h = record { done = refl; clock = h.clock; in_time = h.in_time }
  Holds-Event (complete t r w) h = record { done = h.done; clock = h.clock; in_time = h.in_time }

  tick-InTime :
      (n clock : ℕ) (ran : Bool) (p : Phase T)
      → clock ≡ s.clock + n
      → phase_ready clock true ran p ≡ false
      → InTime n clock p
      → InTime (suc n) (suc clock) p
  tick-InTime n clock ran waiting c idle h = cc
  tick-InTime n clock ran (stopping d) c idle h = ground arith
  tick-InTime n clock ran (ended v e) c idle h = tt

  Run-Holds :
      {n : ℕ} {t : RunState T} → Run timeout s n t → s.phase ≡ waiting → s.done ≡ true → Holds n t
  Run-Holds here w d = record {
    done = d;
    clock = omega arith;
    in_time = subst (InTime 0 s.clock) (sym w) refl;
  }
  Run-Holds (step r st) w d = Holds-Step st (Run-Holds r w d)
  Run-Holds (event r ev) w d = Holds-Event ev (Run-Holds r w d)
  Run-Holds (tick {n} {t} r idle) w d =
      let h = Run-Holds r w d in
      let now = h.clock in
      record {
        done = h.done;
        clock = omega arith;
        in_time =
            tick-InTime n t.clock (is_some t.worker) t.phase h.clock
              (subst (λ b. phase_ready t.clock b (is_some t.worker) t.phase ≡ false) h.done idle)
              h.in_time;
      }

  late-HasEnded :
      (n clock : ℕ) (p : Phase T)
      → clock ≡ s.clock + n
      → InTime n clock p
      → timeout < n
      → HasEnded p
  late-HasEnded n clock waiting c h l = omega arith
  late-HasEnded n clock (stopping d) c h l = omega arith
  late-HasEnded n clock (ended v e) c h l = tt

-- The steps that are left to RunT.
abbrev pub rank : {T : Type 0} → Phase T → ℕ
rank waiting = 2
rank (stopping d) = 1
rank (ended v e) = 0

module _ {T : Type 0} (timeout : ℕ) (t : RunState T) where
  -- A step of RunT that leaves fewer steps to it.
  abbrev pub Moves : Type 0
  Moves = (u : RunState T) × Step timeout t u × (rank u.phase < rank t.phase)

  Moves_from :
      (p : Phase T) → t.phase ≡ p → phase_ready t.clock t.done (is_some t.worker) p ≡ true → Moves
  Moves_from waiting e r =
      (record t { phase = stopping (t.clock + timeout) }, wake t e r, rw e (omega arith))
  Moves_from (stopping d) e r = elim (Option-cases t.worker) [
    | inl none_yet ↦ (
      record t { phase = ended (value_of t.worker) (some err_shutdown_timeout) },
      give_up t d e (ground (arith, r, none_yet)),
      rw e (omega arith),
    )
    | inr (o, has) ↦ (
      record t { phase = ended (value_of (some o)) (error_of o) },
      collect t d o e has,
      rw e (omega arith),
    )
  ]
  Moves_from (ended v f) e r = cc

  moves : ready t ≡ true → Moves
  moves r = Moves_from t.phase refl r

-- When the context is done while RunT is at its first select, RunT has returned once more ticks have
-- passed than the timeout has, whatever `do` does; and until then it is never stuck: where time
-- cannot pass, RunT has a step to make, of which it makes two at most.
pub Run-HasEnded :
    {T : Type 0} {timeout n : ℕ} {s t : RunState T}
    → Run timeout s n t
    → s.phase ≡ waiting
    → s.done ≡ true
    → (timeout < n → HasEnded t.phase) × (ready t ≡ true → Moves timeout t)
Run-HasEnded {timeout} {n} {s} {t} r w d =
    let h = Run-Holds timeout s r w d in
    (late-HasEnded timeout s n t.clock t.phase h.clock h.in_time, moves timeout t)
