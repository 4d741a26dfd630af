-- ===== src/Daemon/Cause.antt =====
-- Why `loop` of src/ABased.c returns.
use audiobase.Common.{
  ℕ, [], ◌∷◌, List, Bool, Bool-cases, true, false, ◌||◌, Option, some, ◌≡◌, refl, ◌∙◌, sym, ◌⊎◌,
  inl, inr, arith, ℤ, pos, negsuc, ap, ◌++◌,
}
use audiobase.Bus.{◌>>=◌, mod_update}
use audiobase.Bus.Effects.{>>=-eq-some}
use audiobase.Daemon.Loop.{
  Select, interrupted, failed, timed_out, ready, handle_input, work, Turn, Daemon, LoopEnd,
  returned, is_set, sigterm, sigint, sighup, sighandler, take_signals, loop,
}

pub left_false : (b c : Bool) → (b || c) ≡ false → b ≡ false
left_false true c h = cc
left_false false c h = refl

module _ {W : Type 0} where
  -- Why the main loop ends with turn t: a signal has come that asks for it, or the `select` failed.
  abbrev pub IsCause : Turn → ℤ → Daemon W → Type 0
  IsCause t rc f =
      ((f.terminate ≡ true)
        × (rc ≡ pos 0)
        × ((is_set sigterm t.signals || is_set sigint t.signals) ≡ true))
      ⊎ ((f.terminate ≡ false) × (rc ≡ negsuc 0) × (t.select ≡ failed))

  -- How `loop` ends: for the cause of an end, or for a reload.
  abbrev pub IsReturn : List Turn → List Turn → ℤ → Daemon W → Type 0
  IsReturn ts ts' rc e =
      (before : List Turn) × (t : Turn) × (ts ≡ before ++ t ∷ ts')
      × (IsCause t rc e ⊎ ((e.terminate ≡ false) × (rc ≡ pos 0)))

  -- Signals only set flags.
  pub take_signals-core :
      (ss : List ℕ) (d : Daemon W)
      → (take_signals ss d ≡ record d {
        terminate = d.terminate || (is_set sigterm ss || is_set sigint ss);
        core = record d.core { reloading = d.core.reloading || is_set sighup ss };
      })
  unfolding take_signals sighandler
  take_signals-core [] d = ground arith
  take_signals-core (s ∷ ss) d = ground (arith, take_signals-core ss (sighandler s d))

  work_running :
      (rounds depth : ℕ) (select : Select) (d e : Daemon W)
      → work rounds depth select d ≡ some e
      → e.terminate ≡ d.terminate
  unfolding work
  work_running rounds depth select d e h =
      let (c, updated, same) =
        >>=-eq-some (handle_input depth select d.core >>= mod_update rounds depth) _ h in
      let same' : record d { core = c } ≡ e = ground arith in
      sym (ap (λ (x : Daemon W). x.terminate) same')

  -- The turn in which signals have come.
  returned_here :
      (t : Turn) (ts ts' : List Turn) (rc0 rc : ℤ) (e e' : Daemon W)
      → ◌≡◌ {A = Option (LoopEnd W)} (some (returned rc0 ts e)) (some (returned rc ts' e'))
      → IsCause t rc0 e ⊎ ((e.terminate ≡ false) × (rc0 ≡ pos 0))
      → IsReturn (t ∷ ts) ts' rc e'
  returned_here t ts ts' rc0 rc e e' h cause =
      let same : e ≡ e' = cc in
      let same_rc : rc0 ≡ rc = cc in
      let left : ts ≡ ts' = cc in rw (← same, ← same_rc, ← left) ([], t, refl, cause)

  returned_later :
      (t : Turn) (ts ts' : List Turn) (rc : ℤ) (e : Daemon W)
      → IsReturn ts ts' rc e
      → IsReturn (t ∷ ts) ts' rc e
  returned_later t ts ts' rc e (before, u, split, cause) = (t ∷ before, u, ap (◌∷◌ t) split, cause)

  -- The signals of a turn, before which none had asked for the end.
  signalled :
      (t : Turn) (d : Daemon W)
      → d.terminate ≡ false
      → (take_signals t.signals d).terminate ≡ (is_set sigterm t.signals || is_set sigint t.signals)
  signalled t d running = rw (take_signals-core t.signals d, running) refl

  flagged-IsCause :
      (t : Turn) (d : Daemon W)
      → d.terminate ≡ false
      → IsCause t (pos 0) (take_signals t.signals d)
        ⊎ (((take_signals t.signals d).terminate ≡ false) × (pos 0 ≡ pos 0))
  flagged-IsCause t d running = elim (Bool-cases (take_signals t.signals d).terminate) [
    | inl asked ↦ inl (inl (asked, refl, sym (signalled t d running) ∙ asked))
    | inr not_asked ↦ inr (not_asked, refl)
  ]

  pub loop_flagged :
      (rounds depth : ℕ) (t : Turn) (ts : List Turn) (d e : Daemon W)
      → take_signals t.signals d ≡ e
      → (e.terminate || e.core.reloading) ≡ true
      → loop rounds depth (t ∷ ts) d ≡ some (returned (pos 0) ts e)
  unfolding loop
  loop_flagged rounds depth t ts d e taken flagged = rw (taken, flagged)

  -- How `loop` goes on when no signal has set a flag.
  abbrev after_select : ℕ → ℕ → List Turn → Daemon W → Select → Option (LoopEnd W)
  after_select rounds depth ts e interrupted = loop rounds depth ts e
  after_select rounds depth ts e failed = some (returned (negsuc 0) ts e)
  after_select rounds depth ts e timed_out = work rounds depth timed_out e >>= loop rounds depth ts
  after_select rounds depth ts e (ready fds) =
      work rounds depth (ready fds) e >>= loop rounds depth ts

  loop_calm :
      (rounds depth : ℕ) (ss : List ℕ) (select : Select) (ts : List Turn) (d e : Daemon W)
      → take_signals ss d ≡ e
      → (e.terminate || e.core.reloading) ≡ false
      → loop rounds depth (record { signals = ss; select = select } ∷ ts) d
        ≡ after_select rounds depth ts e select
  unfolding loop
  loop_calm rounds depth ss interrupted ts d e taken calm = rw (taken, calm)
  loop_calm rounds depth ss failed ts d e taken calm = rw (taken, calm)
  loop_calm rounds depth ss timed_out ts d e taken calm = rw (taken, calm)
  loop_calm rounds depth ss (ready fds) ts d e taken calm = rw (taken, calm)

  -- What the turn t and the rest of `loop` give, if the rest returns as it should.
  worked :
      (rounds depth : ℕ) (select : Select) (t : Turn) (ts ts' : List Turn) (f e : Daemon W) (rc : ℤ)
      → ((g : Daemon W)
          → g.terminate ≡ false
          → loop rounds depth ts g ≡ some (returned rc ts' e)
          → IsReturn ts ts' rc e)
      → f.terminate ≡ false
      → (work rounds depth select f >>= loop rounds depth ts) ≡ some (returned rc ts' e)
      → IsReturn (t ∷ ts) ts' rc e
  worked rounds depth select t ts ts' f e rc on still h =
      let (g, done, more) = >>=-eq-some (work rounds depth select f) (loop rounds depth ts) h in
      returned_later t ts ts' rc e (on g (work_running rounds depth select f g done ∙ still) more)

  selected :
      (rounds depth : ℕ) (select : Select) (t : Turn) (ts ts' : List Turn) (f e : Daemon W) (rc : ℤ)
      → t.select ≡ select
      → ((g : Daemon W)
          → g.terminate ≡ false
          → loop rounds depth ts g ≡ some (returned rc ts' e)
          → IsReturn ts ts' rc e)
      → f.terminate ≡ false
      → after_select rounds depth ts f select ≡ some (returned rc ts' e)
      → IsReturn (t ∷ ts) ts' rc e
  selected rounds depth interrupted t ts ts' f e rc is on still h =
      returned_later t ts ts' rc e (on f still h)
  selected rounds depth failed t ts ts' f e rc is on still h =
      returned_here t ts ts' (negsuc 0) rc f e h (inl (inr (still, refl, is)))
  selected rounds depth timed_out t ts ts' f e rc is on still h =
      worked rounds depth timed_out t ts ts' f e rc on still h
  selected rounds depth (ready fds) t ts ts' f e rc is on still h =
      worked rounds depth (ready fds) t ts ts' f e rc on still h

  -- When `loop` returns, the last turn that was taken says why.
  pub loop_returns :
      (rounds depth : ℕ) (ts ts' : List Turn) (d e : Daemon W) (rc : ℤ)
      → d.terminate ≡ false
      → loop rounds depth ts d ≡ some (returned rc ts' e)
      → IsReturn ts ts' rc e
  loop_returns rounds depth [] ts' d e rc running h = unfold loop in cc
  loop_returns rounds depth (t ∷ ts) ts' d e rc running h =
      let taken : Daemon W = take_signals t.signals d in
      elim (Bool-cases (taken.terminate || taken.core.reloading)) [
        | inl flagged ↦
            returned_here t ts ts' (pos 0) rc taken e
              (sym (loop_flagged rounds depth t ts d taken refl flagged) ∙ h)
              (flagged-IsCause t d running)
        | inr calm ↦
            selected rounds depth t.select t ts ts' taken e rc refl
              (λ g still more. loop_returns rounds depth ts ts' g e rc still more)
              (left_false taken.terminate taken.core.reloading calm)
              (sym (loop_calm rounds depth t.signals t.select ts d taken refl calm) ∙ h)
      ]
