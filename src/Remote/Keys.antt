-- ===== src/Remote/Keys.antt =====
-- From the keys of the remote control (src/mod_lirc.c) to the queue of the core (src/ABasemod.c).
use audiobase.Common.{
  [], ◌∷◌, ◌++◌, append_assoc, append-nil, List, Option, none, some, ◌≡◌, refl, ℤ, pos,
}
use audiobase.Text.{Text}
use audiobase.Bus.{Handler, done, send, Core, Query, exec}
use audiobase.Bus.Inputs.{inputs, sendmsg_queued}
use audiobase.Bus.Msgtype
use audiobase.Remote.Poll.{Lirc, code, send_commands, mod_lirc_poll}

-- What `lirc_code2char` answers when a key stands for some commands.
abbrev pub answers : List Text → List (ℤ × Option Text) → List (ℤ × Option Text)
answers [] more = more
answers (s ∷ cmds) more = (pos 0, some s) ∷ answers cmds more

module _ {W : Type 0} where
  abbrev sender : List Text → Handler W
  sender [] = done
  sender (s ∷ cmds) = send Msgtype.input s (sender cmds)

  send_commands-answers :
      (cmds : List Text) (rc : ℤ) (more : List (ℤ × Option Text))
      → send_commands (answers cmds ((rc, none) ∷ more)) ≡ some (sender cmds)
  unfolding send_commands
  send_commands-answers [] rc more = refl
  send_commands-answers (s ∷ cmds) rc more = rw (send_commands-answers cmds rc more) refl

  exec-sender :
      (query : Query W) (cmds : List Text) (c : Core W)
      → c.answer_head ≡ none
      → exec query (sender cmds) c ≡ some (record c { mod_msgs = c.mod_msgs ++ inputs cmds })
  unfolding exec
  exec-sender query [] c h = simp append-nil
  exec-sender query (s ∷ cmds) c h =
      let next = record c {
        mod_msgs = c.mod_msgs ++ record { msgtype = Msgtype.input; msg = s } ∷ [];
      } in
      rw (
        sendmsg_queued query Msgtype.input s c h,
        exec-sender query cmds next h,
        append_assoc c.mod_msgs (inputs (s ∷ [])) (inputs cmds),
      )

module _ {C W : Type 0} where
  -- If lirc_client gives commands for a key until there is none left, and the configuration of the
  -- remote control has been read, the poll runs without a failure: outside of a query it puts these
  -- commands as inputs to the end of the queue, in their order, and changes nothing else.
  pub mod_lirc_poll-inputs :
      (query : Query W) (cmds : List Text) (rc : ℤ) (more : List (ℤ × Option Text)) (irconfig : C)
      (l : Lirc C) (c : Core W)
      → l.irconfig ≡ some irconfig
      → c.answer_head ≡ none
      → (h : Handler W) × (mod_lirc_poll (code (answers cmds ((rc, none) ∷ more))) l ≡ some (h, l))
        × (exec query h c ≡ some (record c { mod_msgs = c.mod_msgs ++ inputs cmds }))
  unfolding mod_lirc_poll
  mod_lirc_poll-inputs query cmds rc more irconfig l c known h = (
    sender cmds,
    simp (mod_lirc_poll, known, send_commands-answers cmds rc more),
    exec-sender query cmds c h,
  )
