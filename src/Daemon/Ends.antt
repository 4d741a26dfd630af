-- ===== src/Daemon/Ends.antt =====
-- When the main loop of src/ABased.c ends, and what a signal does to it.
use audiobase.Common.{
  ℕ, zero, suc, ◌∷◌, List, Bool, Bool-cases, true, false, ◌||◌, Option, none, some, ◌≡◌, refl, ◌∙◌,
  sym, ◌⊎◌, inl, inr, arith, if◌then◌else◌, ℤ, pos, ltb_ℤ, ap, ◌++◌, append_assoc,
}
use audiobase.Bus.{◌>>=◌, Core, mod_reload}
use audiobase.Bus.Effects.{>>=-eq-some}
use audiobase.Daemon.Loop.{
  Turn, Daemon, LoopEnd, returned, waiting, is_set, sigterm, sigint, sighup, take_signals, loop,
  reload_step, main_loop,
}
use audiobase.Daemon.Cause.{
  left_false, IsCause, IsReturn, take_signals-core, loop_flagged, loop_returns,
}

if_running {ℓ} :
    {A : Type ℓ} (x : A) {y : A} (b : Bool) → b ≡ false → (if b || false then x else y) ≡ y
if_running x true h = cc
if_running x false h = refl

module _ {W : Type 0} where
  reload_step-clears :
      (depth : ℕ) (config_reload : W → W) (d f : Daemon W)
      → reload_step depth config_reload d ≡ some f
      → (f.core.reloading ≡ false) × (f.terminate ≡ d.terminate)
  unfolding reload_step
  reload_step-clears depth config_reload d f h = elim (Bool-cases d.core.reloading) [
    | inl wanted ↦ ground (
      arith,
      >>=-eq-some (mod_reload depth (record d.core { world = config_reload d.core.world }))
          (λ c. some (record d { core = record c { reloading = false } })),
    )
    | inr not_wanted ↦ ground arith
  ]

  -- How the main loop goes on when `loop` has ended.
  abbrev after_loop : ℕ → ℕ → ℕ → (W → W) → LoopEnd W → Option (LoopEnd W)
  after_loop laps rounds depth config_reload (waiting e) = some (waiting e)
  after_loop laps rounds depth config_reload (returned rc ts e) =
      reload_step depth config_reload e >>= λ f.
      let more = main_loop laps rounds depth config_reload ts f in
      if f.terminate || ltb_ℤ rc (pos 0) then some (returned rc ts f) else more

  -- How the main loop ends after the turns ts, of which ts' are left: no reload is wanted, and the
  -- cause is the last turn that was taken.
  abbrev pub IsEnd : List Turn → List Turn → ℤ → Daemon W → Type 0
  IsEnd ts ts' rc f =
      (f.core.reloading ≡ false)
      × ((before : List Turn) × (t : Turn) × (ts ≡ before ++ t ∷ ts') × IsCause t rc f)

  main_loop_step :
      (laps rounds depth : ℕ) (config_reload : W → W) (ts : List Turn) (d : Daemon W)
      → main_loop (suc laps) rounds depth config_reload ts d
        ≡ (loop rounds depth ts d >>= after_loop laps rounds depth config_reload)
  unfolding main_loop
  main_loop_step laps rounds depth config_reload ts d =
      elim (loop rounds depth ts d)
        as (λ o.
          (o >>= λ end. elim end [
            | waiting e ↦ some (waiting e)
            | returned rc ts' e ↦ reload_step depth config_reload e >>= λ f.
                let more = main_loop laps rounds depth config_reload ts' f in
                if f.terminate || ltb_ℤ rc (pos 0) then some (returned rc ts' f) else more
          ])
          ≡ (o >>= after_loop laps rounds depth config_reload)) [
            | none ↦ refl
            | some (waiting e) ↦ refl
            | some (returned rc ts' e) ↦ refl
          ]

  IsEnd-before :
      (before ts ts0 ts' : List Turn) (t : Turn) (rc : ℤ) (f : Daemon W)
      → ts ≡ before ++ t ∷ ts0
      → IsEnd ts0 ts' rc f
      → IsEnd ts ts' rc f
  IsEnd-before before ts ts0 ts' t rc f split (clear, (more, u, split', cause)) = (
    clear,
    (
      before ++ t ∷ more,
      u,
      split ∙ ap (λ l. before ++ t ∷ l) split' ∙ sym (append_assoc before (t ∷ more) (u ∷ ts')),
      cause,
    ),
  )

  -- The end after the last reload, if one was wanted.
  IsCause-end :
      (t : Turn) (rc0 : ℤ) (e g : Daemon W)
      → g.terminate ≡ e.terminate
      → (g.terminate || ltb_ℤ rc0 (pos 0)) ≡ true
      → IsCause t rc0 e ⊎ ((e.terminate ≡ false) × (rc0 ≡ pos 0))
      → IsCause t rc0 g
  IsCause-end t rc0 e g same ended (inl (inl (asked, zero_rc, signal))) =
      inl (same ∙ asked, zero_rc, signal)
  IsCause-end t rc0 e g same ended (inl (inr (still, rc_negative, is))) =
      inr (same ∙ still, rc_negative, is)
  IsCause-end t rc0 e g same ended (inr (still, zero_rc)) = absurd (ground arith)

  IsEnd-here :
      (rc0 rc : ℤ) (ts ts0 ts' : List Turn) (g f : Daemon W)
      → g.core.reloading ≡ false
      → ((before : List Turn) × (t : Turn) × (ts ≡ before ++ t ∷ ts0) × IsCause t rc0 g)
      → ◌≡◌ {A = Option (LoopEnd W)} (some (returned rc0 ts0 g)) (some (returned rc ts' f))
      → IsEnd ts ts' rc f
  IsEnd-here rc0 rc ts ts0 ts' g f clear cause h =
      let same : g ≡ f = cc in
      let same_rc : rc0 ≡ rc = cc in
      let left : ts0 ≡ ts' = cc in rw (← same, ← same_rc, ← left) (clear, cause)

  after_loop_ends :
      (laps rounds depth : ℕ) (config_reload : W → W) (ts ts' : List Turn) (f : Daemon W) (rc : ℤ)
      (end : LoopEnd W)
      → after_loop laps rounds depth config_reload end ≡ some (returned rc ts' f)
      → ((ts0 : List Turn) (e : Daemon W) (rc0 : ℤ)
          → end ≡ returned rc0 ts0 e
          → IsReturn ts ts0 rc0 e)
      → ((ts0 : List Turn) (e : Daemon W)
          → e.terminate ≡ false
          → main_loop laps rounds depth config_reload ts0 e ≡ some (returned rc ts' f)
          → IsEnd ts0 ts' rc f)
      → IsEnd ts ts' rc f
  after_loop_ends laps rounds depth config_reload ts ts' f rc (waiting e) h why more = cc
  after_loop_ends laps rounds depth config_reload ts ts' f rc (returned rc0 ts0 e) h why more =
      let (g, reloaded, rest) = >>=-eq-some (reload_step depth config_reload e) _ h in
      let (clear, same) = reload_step-clears depth config_reload e g reloaded in
      let (before, t, split, cause) = why ts0 e rc0 refl in
      elim (Bool-cases (g.terminate || ltb_ℤ rc0 (pos 0))) [
        | inl ended ↦
            IsEnd-here rc0 rc ts ts0 ts' g f clear
              (before, t, split, IsCause-end t rc0 e g same ended cause) (rw ended at rest)
        | inr on ↦
            IsEnd-before before ts ts0 ts' t rc f split
              (more ts0 g (left_false g.terminate (ltb_ℤ rc0 (pos 0)) on) (rw on at rest))
      ]

  -- If the end is not asked for yet and the main loop ends, no reload is wanted any more, and it
  -- ends in the last turn that was taken: either SIGTERM or SIGINT has come in this turn, and the
  -- result is 0, or the `select` of this turn has failed and nothing has asked for the end, and the
  -- result is -1. The turns behind it are left.
  pub main_loop_ends :
      (laps rounds depth : ℕ) (config_reload : W → W) (ts ts' : List Turn) (d f : Daemon W) (rc : ℤ)
      → d.terminate ≡ false
      → main_loop laps rounds depth config_reload ts d ≡ some (returned rc ts' f)
      → IsEnd ts ts' rc f
  main_loop_ends zero rounds depth config_reload ts ts' d f rc running h = unfold main_loop in cc
  main_loop_ends (suc laps) rounds depth config_reload ts ts' d f rc running h =
      let (end, ended, after) =
        >>=-eq-some (loop rounds depth ts d) (after_loop laps rounds depth config_reload)
          (sym (main_loop_step laps rounds depth config_reload ts d) ∙ h) in
      after_loop_ends laps rounds depth config_reload ts ts' f rc end after
        (λ ts0 e rc0 is. loop_returns rounds depth ts ts0 d e rc0 running (ended ∙ ap some is))
        (λ ts0 e still h'. main_loop_ends laps rounds depth config_reload ts0 ts' e f rc still h')

  -- A signal that asks for the end, when no reload is wanted, ends the main loop as soon as `select`
  -- returns: what it reports is not handled, and the queue is left as it is.
  pub main_loop_terminates :
      (laps rounds depth : ℕ) (config_reload : W → W) (t : Turn) (ts : List Turn) (d : Daemon W)
      → (is_set sigterm t.signals || is_set sigint t.signals) ≡ true
      → d.core.reloading ≡ false
      → is_set sighup t.signals ≡ false
      → main_loop (suc laps) rounds depth config_reload (t ∷ ts) d
        ≡ some (returned (pos 0) ts (record d { terminate = true }))
  main_loop_terminates laps rounds depth config_reload t ts d asked quiet no_hup =
      let e = record d { terminate = true } in
      let taken : take_signals t.signals d ≡ e = ground (arith, take_signals-core t.signals d) in
      let calm : reload_step depth config_reload e ≡ some e = unfold reload_step in ground arith in
      rw (
        main_loop_step laps rounds depth config_reload (t ∷ ts) d,
        loop_flagged rounds depth t ts d e taken refl,
        calm,
      )

  after_reload :
      (laps rounds depth : ℕ) (config_reload : W → W) (ts : List Turn) (d : Daemon W)
      (m : Option (Core W))
      → d.terminate ≡ false
      → ((m >>= λ c. some (record d { core = record c { reloading = false } })) >>= λ f.
          let more = main_loop laps rounds depth config_reload ts f in
          if f.terminate || ltb_ℤ (pos 0) (pos 0) then some (returned (pos 0) ts f) else more)
        ≡ (m >>= λ c.
            main_loop laps rounds depth config_reload ts
              (record d { core = record c { reloading = false } }))
  after_reload laps rounds depth config_reload ts d none running = refl
  after_reload laps rounds depth config_reload ts d (some c) running =
      if_running _ d.terminate running

  -- A hangup signal without one that asks for the end has the configuration and the modules reloaded
  -- once, and then the main loop goes on with the next turn; what this `select` reports is not
  -- handled.
  pub main_loop_reloads :
      (laps rounds depth : ℕ) (config_reload : W → W) (t : Turn) (ts : List Turn) (d : Daemon W)
      → is_set sighup t.signals ≡ true
      → d.terminate ≡ false
      → (is_set sigterm t.signals || is_set sigint t.signals) ≡ false
      → main_loop (suc laps) rounds depth config_reload (t ∷ ts) d ≡ (
          mod_reload depth (record d.core { reloading = true; world = config_reload d.core.world })
          >>= λ c.
              main_loop laps rounds depth config_reload ts
                (record d { core = record c { reloading = false } }))
  main_loop_reloads laps rounds depth config_reload t ts d hup running no_term =
      let e = record d { core = record d.core { reloading = true } } in
      let taken : take_signals t.signals d ≡ e = ground (arith, take_signals-core t.signals d) in
      rw
        (
          main_loop_step laps rounds depth config_reload (t ∷ ts) d,
          loop_flagged rounds depth t ts d e taken (ground arith),
        )
        (unfold reload_step in
          after_reload laps rounds depth config_reload ts d
            (mod_reload depth
              (record d.core { reloading = true; world = config_reload d.core.world }))
            running)
