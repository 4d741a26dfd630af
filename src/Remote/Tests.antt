-- ===== src/Remote/Tests.antt =====
-- Tests of the remote control (src/mod_lirc.c), and the theorem at a concrete input.
use audiobase.Common.{[], ◌∷◌, ◌++◌, none, some, ◌≡◌, refl, pos, false, ℕ}
use audiobase.Text.{codes}
use audiobase.Bus.{Handler, done, Core, exec, mod_query}
use audiobase.Bus.Inputs.{inputs}
use audiobase.Remote.{Lirc, died, code, mod_lirc_poll}
use audiobase.Remote.Keys.{answers, mod_lirc_poll-inputs}

abbrev lirc : Lirc ℕ
lirc = record { fdset = 4 ∷ []; prog = codes "abase"; irconfig = some 0 }

abbrev core : Core ℕ
core = record { mod_list = []; mod_msgs = []; answer_head = none; reloading = false; world = 0 }

-- A connection that is lost is not watched any more.
lost : mod_lirc_poll {W = ℕ} died lirc ≡ some (done, record lirc { fdset = [] })
unfolding mod_lirc_poll
lost = refl

mod_lirc_poll-inputs_example :
    (h : Handler ℕ) × (mod_lirc_poll
        (code (answers (codes "play" ∷ codes "repeat" ∷ []) ((pos 0, none) ∷ [])))
        lirc
      ≡ some (h, lirc))
    × (exec (mod_query 1) h core
        ≡ some (record core { mod_msgs = [] ++ inputs (codes "play" ∷ codes "repeat" ∷ []) }))
mod_lirc_poll-inputs_example =
    mod_lirc_poll-inputs (mod_query 1) (codes "play" ∷ codes "repeat" ∷ []) (pos 0) [] 0 lirc core
      refl refl
