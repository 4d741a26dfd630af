-- ===== src/Bus/Tests.antt =====
-- Tests of the message bus (src/ABasemod.c), and the theorems at concrete inputs.
use audiobase.Common.{
  ℕ, [], ◌∷◌, ◌++◌, List, true, false, none, some, ◌≡◌, refl, arith, Bool-cases, inl, inr,
  if◌then◌else◌, ◌==◌,
}
use audiobase.Text.{Text, codes, nocase_eq, to_lower}
use audiobase.Bus.{
  ◌>>=◌, Answers, Message, Handler, done, change, send, Mod, Core, mod_sendmsg, mod_query, handle,
  drain, mod_update,
}
use audiobase.Bus.Msgtype
use audiobase.Bus.Effects.{Asked}
use audiobase.Bus.Nested.{mod_query_lem, mod_sendmsg_inside}
use audiobase.Bus.Order.{IsPlain, fifo, emptied, drain_order}
use audiobase.Bus.Quiet.{any_reload, deliver_all, drain_quiet}

-- What the modules keep: the messages that they got, the newest one first.
abbrev World : Type 0
World = List Message

abbrev logger_message : ℕ → Text → Handler World
logger_message msgtype msg = change (λ w. (record { msgtype = msgtype; msg = msg }) ∷ w) done

abbrev logger : Mod World
logger = record {
  mod_name = codes "logger";
  deinit = none;
  reload = none;
  watchfd_set = [];
  poll = none;
  update = none;
  message = some logger_message;
  chld = none;
}

-- A module that answers queries by two messages, and sends an event for each input.
abbrev answerer_message : ℕ → Text → Handler World
answerer_message msgtype msg =
    if msgtype == Msgtype.query
    then send Msgtype.info (codes "a") (send Msgtype.info (codes "b") done)
    else if msgtype == Msgtype.input
    then send Msgtype.event msg done
    else done

abbrev answerer : Mod World
answerer = record {
  mod_name = codes "answerer";
  deinit = none;
  reload = none;
  watchfd_set = [];
  poll = none;
  update = none;
  message = some answerer_message;
  chld = none;
}

abbrev note : ℕ → Text → Message
note msgtype msg = record { msgtype = msgtype; msg = msg }

abbrev idle : Core World
idle = record {
  mod_list = logger ∷ answerer ∷ [];
  mod_msgs = [];
  answer_head = none;
  reloading = false;
  world = [];
}

abbrev logged : Core World
logged = record idle { mod_list = logger ∷ [] }

abbrev waiting : Core World
waiting = record idle {
  mod_msgs = note Msgtype.input (codes "x") ∷ note Msgtype.input (codes "y") ∷ [];
}

abbrev inside : Core World
inside = record idle {
  answer_head = some (record { upto = note Msgtype.info (codes "z") ∷ []; beyond = [] });
}

-- The answers to a query, each of which the other modules hear of as a query of its own.
answers_query :
    mod_query 3 Msgtype.query (codes "q") idle
    ≡ some (
      record idle {
        world =
            note Msgtype.info (codes "b")
            ∷ note Msgtype.info (codes "a")
            ∷ note Msgtype.query (codes "q")
            ∷ [];
      },
      note Msgtype.info (codes "a") ∷ note Msgtype.info (codes "b") ∷ [],
    )
unfolding mod_query
answers_query = refl

abbrev updated : Core World
updated = record idle {
  world =
      note Msgtype.event (codes "y")
      ∷ note Msgtype.event (codes "x")
      ∷ note Msgtype.input (codes "y")
      ∷ note Msgtype.input (codes "x")
      ∷ [];
}

-- The queue is emptied, and the answers to the inputs come after both of them.
updates_queue : mod_update 9 2 waiting ≡ some updated
unfolding mod_update handle nocase_eq to_lower
updates_queue = refl

answerer-IsPlain : (msgtype : ℕ) (msg : Text) → IsPlain (answerer_message msgtype msg)
answerer-IsPlain msgtype msg = elim (Bool-cases (msgtype == Msgtype.query)) [
  | inl query ↦ rw (query, answerer_message) tt
  | inr other ↦ elim (Bool-cases (msgtype == Msgtype.input)) [
    | inl input ↦ rw (other, input, answerer_message) tt
    | inr neither ↦ rw (other, neither, answerer_message) tt
  ]
]

drain_order_example :
    drain 9 2 waiting
    ≡ (fifo 9 idle.mod_list waiting.mod_msgs false [] >>= λ end. some (emptied idle end))
drain_order_example =
    drain_order 9 2 waiting.mod_msgs idle ((λ msgtype msg. tt), (answerer-IsPlain, tt)) refl

abbrev two_messages : List Message
two_messages = note Msgtype.input (codes "reload") ∷ note Msgtype.event (codes "e") ∷ []

drain_quiet_example :
    drain 3 0 (record logged { mod_msgs = two_messages })
    ≡ some (record logged {
      mod_msgs = [];
      reloading = if any_reload two_messages then true else logged.reloading;
      world = deliver_all logged.mod_list two_messages logged.world;
    })
drain_quiet_example = drain_quiet 3 0 two_messages logged ((λ msgtype msg. tt), tt) (omega arith)

mod_query_lem_example : Asked (note Msgtype.query (codes "q")) inside (record inside {
  world =
      note Msgtype.info (codes "b")
      ∷ note Msgtype.info (codes "a")
      ∷ note Msgtype.query (codes "q")
      ∷ [];
  answer_head = some (record {
    upto = note Msgtype.info (codes "z") ∷ [];
    beyond = note Msgtype.query (codes "q") ∷ [];
  });
})
mod_query_lem_example =
    mod_query_lem 3 Msgtype.query (codes "q") inside _
      (note Msgtype.info (codes "a") ∷ note Msgtype.info (codes "b") ∷ [])
      (unfold mod_query in refl)

abbrev opened : Answers
opened = record { upto = note Msgtype.info (codes "z") ∷ []; beyond = [] }

abbrev answered : Core World
answered = record inside {
  world = note Msgtype.info (codes "m") ∷ [];
  answer_head = some (record {
    upto = note Msgtype.info (codes "z") ∷ note Msgtype.info (codes "m") ∷ [];
    beyond = [];
  });
}

mod_sendmsg_inside_example :
    (answered.answer_head
      ≡ some (record { upto = opened.upto ++ note Msgtype.info (codes "m") ∷ []; beyond = [] }))
    × (answered.mod_msgs ≡ inside.mod_msgs)
    × (answered.mod_list ≡ inside.mod_list)
mod_sendmsg_inside_example =
    mod_sendmsg_inside 3 Msgtype.info (codes "m") opened inside answered refl
      (unfold mod_sendmsg mod_query in refl)
