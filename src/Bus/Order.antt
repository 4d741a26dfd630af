-- ===== src/Bus/Order.antt =====
-- The order in which `mod_update` of src/ABasemod.c handles messages: first in, first out.
use audiobase.Common.{
  ℕ, zero, suc, [], ◌∷◌, ◌++◌, append_assoc, append-nil, List, Bool, true, false, Option, none,
  some, ◌≡◌, ◌⊎◌, refl, Bool-cases, inl, inr, All, if◌then◌else◌,
}
use audiobase.Text.{Text}
use audiobase.Bus.Handlers.{Message, Handler, done, change, look, send, ask, Mod, Core}
use audiobase.Bus.Queue.{
  Query, ◌>>=◌, exec, exec_all, mod_query, receivers, handle, drain, is_reload,
}
use audiobase.Bus.Inputs.{sendmsg_queued}

module _ {W : Type 0} where
  -- A handler that changes the state of the modules and sends messages, and poses no query.
  abbrev pub IsPlain : Handler W → Type 0
  IsPlain done = Unit {0}
  IsPlain (change f h) = IsPlain h
  IsPlain (look f) = (w : W) → IsPlain (f w)
  IsPlain (send msgtype msg h) = IsPlain h
  IsPlain (ask msgtype msg k) = ⊥

  abbrev pub IsPlainReceiver : Option (ℕ → Text → Handler W) → Type 0
  IsPlainReceiver none = Unit {0}
  IsPlainReceiver (some f) = (msgtype : ℕ) (msg : Text) → IsPlain (f msgtype msg)

  -- What such a handler makes of the state.
  pub effect : Handler W → W → W
  effect done w = w
  effect (change f h) w = effect h (f w)
  effect (look f) w = effect (f w) w
  effect (send msgtype msg h) w = effect h w
  effect (ask msgtype msg k) w = w

  -- The messages that it sends, in their order.
  pub sent : Handler W → W → List Message
  sent done w = []
  sent (change f h) w = sent h (f w)
  sent (look f) w = sent (f w) w
  sent (send msgtype msg h) w = record { msgtype = msgtype; msg = msg } ∷ sent h w
  sent (ask msgtype msg k) w = []

  -- One message, given to the modules one after the other: the state, and what they send.
  pub delivered : List (Mod W) → Message → W → W
  delivered [] m w = w
  delivered (d ∷ ds) m w = elim d.message [
    | none ↦ delivered ds m w
    | some f ↦ delivered ds m (effect (f m.msgtype m.msg) w)
  ]

  pub sent_for : List (Mod W) → Message → W → List Message
  sent_for [] m w = []
  sent_for (d ∷ ds) m w = elim d.message [
    | none ↦ sent_for ds m w
    | some f ↦ sent (f m.msgtype m.msg) w ++ sent_for ds m (effect (f m.msgtype m.msg) w)
  ]

  -- A queue, first in, first out, for at most some rounds: the oldest message goes to the modules,
  -- and what they send waits behind the others. The input `reload` is kept from them, and noted.
  pub fifo : ℕ → List (Mod W) → List Message → Bool → W → Option (Bool × W)
  fifo zero ds ms reload w = none
  fifo (suc rounds) ds [] reload w = some (reload, w)
  fifo (suc rounds) ds (m ∷ ms) reload w =
      let next = fifo rounds ds (ms ++ sent_for ds m w) reload (delivered ds m w) in
      if is_reload m then fifo rounds ds ms true w else next

  exec-sent :
      (query : Query W) (h : Handler W) (c : Core W)
      → IsPlain h
      → c.answer_head ≡ none
      → exec query h c
        ≡ some (record c { world = effect h c.world; mod_msgs = c.mod_msgs ++ sent h c.world })
  unfolding exec effect sent
  exec-sent query done c p none_open = rw append-nil refl
  exec-sent query (change f h) c p none_open =
      exec-sent query h (record c { world = f c.world }) p none_open
  exec-sent query (look f) c p none_open = exec-sent query (f c.world) c (p c.world) none_open
  exec-sent query (send msgtype msg h) c p none_open =
      let newmsg : Message = record { msgtype = msgtype; msg = msg } in
      rw
        (
          sendmsg_queued query msgtype msg c none_open,
          ← append_assoc c.mod_msgs (newmsg ∷ []) (sent h c.world),
        )
        (exec-sent query h (record c { mod_msgs = c.mod_msgs ++ newmsg ∷ [] }) p none_open)
  exec-sent query (ask msgtype msg k) c p none_open = absurd p

  receiver_cases :
      (o : Option (ℕ → Text → Handler W))
      → IsPlainReceiver o
      → (o ≡ none)
        ⊎ ((f : ℕ → Text → Handler W) × (o ≡ some f)
            × ((msgtype : ℕ) (msg : Text) → IsPlain (f msgtype msg)))
  receiver_cases none q = inl refl
  receiver_cases (some f) q = inr (f, refl, q)

  exec_all-sent :
      (query : Query W) (ds : List (Mod W)) (m : Message) (c : Core W)
      → All (λ d. IsPlainReceiver d.message) ds
      → c.answer_head ≡ none
      → exec_all query (receivers ds m.msgtype m.msg) c
        ≡ some (record c {
          world = delivered ds m c.world;
          mod_msgs = c.mod_msgs ++ sent_for ds m c.world;
        })
  unfolding delivered sent_for
  exec_all-sent query [] m c p none_open = rw append-nil refl
  exec_all-sent query (d ∷ ds) m c p none_open = elim (receiver_cases d.message p.0) [
    | inl e ↦ rw (e, receivers, delivered, sent_for) (exec_all-sent query ds m c p.1 none_open)
    | inr (f, e, plain) ↦
        let h = f m.msgtype m.msg in
        rw
          (
            e,
            receivers,
            delivered,
            sent_for,
            exec-sent query h c (plain m.msgtype m.msg) none_open,
            ← append_assoc c.mod_msgs (sent h c.world) (sent_for ds m (effect h c.world)),
          )
          (exec_all-sent query ds m
            (record c { world = effect h c.world; mod_msgs = c.mod_msgs ++ sent h c.world }) p.1
            none_open)
  ]

  handle-sent :
      (depth : ℕ) (m : Message) (c : Core W)
      → All (λ d. IsPlainReceiver d.message) c.mod_list
      → c.answer_head ≡ none
      → is_reload m ≡ false
      → handle depth m c
        ≡ some (record c {
          world = delivered c.mod_list m c.world;
          mod_msgs = c.mod_msgs ++ sent_for c.mod_list m c.world;
        })
  unfolding handle
  handle-sent depth m c p none_open other =
      rw (other, handle) (exec_all-sent (mod_query depth) c.mod_list m c p none_open)

  handle-reload :
      (depth : ℕ) (m : Message) (c : Core W)
      → is_reload m ≡ true
      → handle depth m c ≡ some (record c { reloading = true })
  unfolding handle
  handle-reload depth m c reload = rw (reload, handle)

  -- What the loop leaves when the queue is empty.
  abbrev pub emptied : Core W → Bool × W → Core W
  emptied c (reload, w) = record c { mod_msgs = []; reloading = reload; world = w }

  -- If no query is open and the modules send messages but pose no query, the loop over the queue
  -- does what a queue does that is first in, first out, within any number of rounds: it gives each
  -- message, the oldest one first, to all modules in the order of the list, what they send waits
  -- behind all that is in the queue, and the queue is empty at the end. The input `reload` is kept
  -- from the modules and sets the flag. The loop runs out of rounds just when that queue does.
  pub drain_order :
      (rounds depth : ℕ) (msgs : List Message) (c : Core W)
      → All (λ d. IsPlainReceiver d.message) c.mod_list
      → c.answer_head ≡ none
      → drain rounds depth (record c { mod_msgs = msgs })
        ≡ (fifo rounds c.mod_list msgs c.reloading c.world >>= λ end. some (emptied c end))
  unfolding drain fifo
  drain_order zero depth msgs c p none_open = refl
  drain_order (suc rounds) depth [] c p none_open = refl
  drain_order (suc rounds) depth (m ∷ ms) c p none_open = elim (Bool-cases (is_reload m)) [
    | inl reload ↦
        rw (reload, handle-reload depth m (record c { mod_msgs = m ∷ ms }) reload)
          (drain_order rounds depth ms (record c { reloading = true }) p none_open)
    | inr other ↦
        rw (other, handle-sent depth m (record c { mod_msgs = m ∷ ms }) p none_open other)
          (drain_order rounds depth (ms ++ sent_for c.mod_list m c.world)
            (record c { world = delivered c.mod_list m c.world }) p none_open)
  ]
