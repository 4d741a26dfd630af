-- ===== src/Bus/Queue.antt =====
-- `mod_sendmsg`, `mod_query` and `mod_update` of src/ABasemod.c. Allocation succeeds.
use audiobase.Common.{
  ℕ, zero, suc, [], ◌∷◌, ◌++◌, List, Bool, true, ◌&&◌, ◌==◌, Option, none, some, if◌then◌else◌,
}
use audiobase.Text.{Text, codes, nocase_eq}
use audiobase.Bus.Handlers.{
  Message, Handler, done, change, look, send, ask, Mod, Answers, all_answers, Core,
}
use audiobase.Bus.Msgtype

infixl 5 ◌>>=◌
abbrev pub ◌>>=◌ {ℓ κ} : {A : Type ℓ} {B : Type κ} → Option A → (A → Option B) → Option B
none >>= f = none
some a >>= f = f a

-- `answer_head->next = newmsg; answer_head = newmsg`: what stood behind the head is lost.
unfoldable pub append_answer : Option Answers → Message → Option Answers
append_answer none m = none
append_answer (some a) m = some (record { upto = a.upto ++ m ∷ []; beyond = [] })

-- The same with `answer_head` put back to where it was.
unfoldable pub hang_answer : Option Answers → Message → Option Answers
hang_answer none m = none
hang_answer (some a) m = some (record { upto = a.upto; beyond = m ∷ [] })

-- The type of `mod_query`; `none` means that the nesting of queries exceeds the fuel.
abbrev pub Query : Type 0 → Type 0
Query W = ℕ → Text → Core W → Option (Core W × List Message)

abbrev pub is_reload : Message → Bool
is_reload m = m.msgtype == Msgtype.input && nocase_eq m.msg (codes "reload")

abbrev pub tail : List Message → List Message
tail [] = []
tail (m ∷ ms) = ms

module _ {W : Type 0} where
  -- Inside a query the message is posed as a query, and then added to the answers; otherwise it
  -- goes to the end of the queue.
  unfoldable pub mod_sendmsg : Query W → ℕ → Text → Core W → Option (Core W)
  unfolding append_answer
  mod_sendmsg query msgtype msg c =
      let newmsg : Message = record { msgtype = msgtype; msg = msg } in
      elim c.answer_head [
        | none ↦ some (record c { mod_msgs = c.mod_msgs ++ newmsg ∷ [] })
        | some a ↦ do
          answered ← query msgtype msg c
          some (record (answered.0) { answer_head = append_answer (answered.0).answer_head newmsg })
      ]

  -- A handler runs.
  unfoldable pub exec : Query W → Handler W → Core W → Option (Core W)
  unfolding mod_sendmsg
  exec query done c = some c
  exec query (change f h) c = exec query h (record c { world = f c.world })
  exec query (look f) c = exec query (f c.world) c
  exec query (send msgtype msg h) c = mod_sendmsg query msgtype msg c >>= exec query h
  exec query (ask msgtype msg k) c =
      query msgtype msg c >>= λ answered. exec query (k answered.1) answered.0

  abbrev pub exec_all : Query W → List (Option (Handler W)) → Core W → Option (Core W)
  exec_all query [] c = some c
  exec_all query (none ∷ hs) c = exec_all query hs c
  exec_all query (some h ∷ hs) c = exec query h c >>= exec_all query hs

  -- What each module does with a message, in the order of the list.
  abbrev pub receivers : List (Mod W) → ℕ → Text → List (Option (Handler W))
  receivers [] msgtype msg = []
  receivers (m ∷ ms) msgtype msg =
      elim m.message [ none ↦ none | some f ↦ some (f msgtype msg) ] ∷ receivers ms msgtype msg

  unfoldable pub mod_query : ℕ → ℕ → Text → Core W → Option (Core W × List Message)
  unfolding exec hang_answer
  mod_query zero msgtype msg c = none
  mod_query (suc depth) msgtype msg c =
      let newmsg : Message = record { msgtype = msgtype; msg = msg } in
      let return_queue : Answers = record { upto = []; beyond = [] } in
      let outer = hang_answer c.answer_head newmsg in
      exec_all (mod_query depth) (receivers c.mod_list msgtype msg)
        (record c { answer_head = some return_queue })
      >>= λ c'. some (record c' { answer_head = outer }, all_answers c'.answer_head)

  -- The message at the head is handled, while it still stands in the queue.
  unfoldable pub handle : ℕ → Message → Core W → Option (Core W)
  unfolding exec
  handle depth m c =
      if is_reload m
      then some (record c { reloading = true })
      else exec_all (mod_query depth) (receivers c.mod_list m.msgtype m.msg) c

  -- `while (mod_msgs)`; `none` means that the fuel ran out.
  unfoldable pub drain : ℕ → ℕ → Core W → Option (Core W)
  drain zero depth c = none
  drain (suc rounds) depth c = elim c.mod_msgs [
    | [] ↦ some c
    | m ∷ _ ↦
        handle depth m c >>= λ c'. drain rounds depth (record c' { mod_msgs = tail c'.mod_msgs })
  ]

  abbrev pub updates : List (Mod W) → List (Option (Handler W))
  updates [] = []
  updates (m ∷ ms) = m.update ∷ updates ms

  unfoldable pub mod_update : ℕ → ℕ → Core W → Option (Core W)
  unfolding drain
  mod_update rounds depth c =
      drain rounds depth c >>= λ c'. exec_all (mod_query depth) (updates c'.mod_list) c'
