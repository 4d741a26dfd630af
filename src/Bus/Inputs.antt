-- ===== src/Bus/Inputs.antt =====
-- Messages that are sent outside of a query (`mod_sendmsg` of src/ABasemod.c).
use audiobase.Common.{ℕ, [], ◌∷◌, ◌++◌, List, none, some, ◌≡◌, arith}
use audiobase.Text.{Text}
use audiobase.Bus.Handlers.{Message, Core}
use audiobase.Bus.Queue.{Query, mod_sendmsg}
use audiobase.Bus.Msgtype

-- The messages that stand for inputs.
abbrev pub inputs : List Text → List Message
inputs [] = []
inputs (m ∷ ms) = record { msgtype = Msgtype.input; msg = m } ∷ inputs ms

-- Outside of a query a message is queued.
pub sendmsg_queued :
    {W : Type 0} (query : Query W) (msgtype : ℕ) (msg : Text) (c : Core W)
    → c.answer_head ≡ none
    → mod_sendmsg query msgtype msg c
      ≡ some (record c { mod_msgs = c.mod_msgs ++ record { msgtype = msgtype; msg = msg } ∷ [] })
unfolding mod_sendmsg
sendmsg_queued query msgtype msg c h = ground arith
