-- ===== src/Bus/Nested.antt =====
-- Messages inside a query (src/ABasemod.c): they reach the modules at once, none is queued, and
-- each stands once in the list of answers.
use mathlib.Core.Path.{subst}
use audiobase.Common.{
  ap, ℕ, zero, suc, [], ◌∷◌, ◌++◌, append-nil, List, Option, none, some, ◌≡◌, refl, sym, ◌∙◌, arith,
}
use audiobase.Text.{Text}
use audiobase.Bus.Handlers.{Message, Handler, done, change, look, send, ask, Answers, Core}
use audiobase.Bus.Queue.{
  ◌>>=◌, append_answer, hang_answer, Query, mod_sendmsg, exec, exec_all, receivers, mod_query,
}
use audiobase.Bus.Effects.{
  >>=-eq-some, Inside, Outside, Asked, Inside-refl, Inside-trans, Outside-refl, Outside-trans,
  Inside-of, hang_some, hang_none,
}

module _ {W : Type 0} where
  sendmsg_in_query :
      (query : Query W) (msgtype : ℕ) (msg : Text) (a : Answers) (c : Core W)
      → c.answer_head ≡ some a
      → mod_sendmsg query msgtype msg c ≡ (
          query msgtype msg c >>= λ answered. some (record (answered.0) {
            answer_head =
                append_answer (answered.0).answer_head (record { msgtype = msgtype; msg = msg });
          }))
  unfolding mod_sendmsg
  sendmsg_in_query query msgtype msg a c h = ground arith

  sendmsg_queued :
      (query : Query W) (msgtype : ℕ) (msg : Text) (c : Core W)
      → c.answer_head ≡ none
      → mod_sendmsg query msgtype msg c
        ≡ some
            (record c { mod_msgs = c.mod_msgs ++ (record { msgtype = msgtype; msg = msg }) ∷ [] })
  unfolding mod_sendmsg
  sendmsg_queued query msgtype msg c h = ground arith

  -- A query function that comes to an end with that effect only.
  abbrev Contained : Query W → Type 0
  Contained query =
      (msgtype : ℕ) (msg : Text) (c c' : Core W) (answers : List Message)
      → query msgtype msg c ≡ some (c', answers)
      → Asked (record { msgtype = msgtype; msg = msg }) c c'

  module _ (query : Query W) (contained : Contained query) where
    -- A message that is sent inside a query is added to the answers once, behind those up to the
    -- head, though `mod_query` hangs it there as well.
    sendmsg_inside :
        (msgtype : ℕ) (msg : Text) (a : Answers) (c c' : Core W)
        → c.answer_head ≡ some a
        → mod_sendmsg query msgtype msg c ≡ some c'
        → (c'.answer_head
            ≡ some (record {
              upto = a.upto ++ (record { msgtype = msgtype; msg = msg }) ∷ [];
              beyond = [];
            }))
          × (c'.mod_msgs ≡ c.mod_msgs)
          × (c'.mod_list ≡ c.mod_list)
    unfolding append_answer hang_answer
    sendmsg_inside msgtype msg a c c' h e =
        let (answered, e1, e2) =
          >>=-eq-some (query msgtype msg c) _
            (sym (sendmsg_in_query query msgtype msg a c h) ∙ e) in
        let k = contained msgtype msg c answered.0 answered.1 e1 in
        (ground (arith, k.answers), ground (arith, k.queue), ground (arith, k.modules))

    sendmsg-Outside :
        (msgtype : ℕ) (msg : Text) (c c' : Core W)
        → c.answer_head ≡ none
        → mod_sendmsg query msgtype msg c ≡ some c'
        → Outside c c'
    sendmsg-Outside msgtype msg c c' h e =
        let e' = sym (sendmsg_queued query msgtype msg c h) ∙ e in
        record {
          queue = (record { msgtype = msgtype; msg = msg } ∷ [], ground arith);
          modules = ground arith;
          no_query = ground arith;
        }

    exec-Inside :
        (h : Handler W) (a : Answers) (c c' : Core W)
        → c.answer_head ≡ some a
        → exec query h c ≡ some c'
        → Inside c c'
    unfolding exec hang_answer
    exec-Inside done a c c' e r = let e' : c ≡ c' = cc in subst (Inside c) e' (Inside-refl c)
    exec-Inside (change f h) a c c' e r =
        let k = exec-Inside h a (record c { world = f c.world }) c' e r in
        record { queue = k.queue; modules = k.modules; answers = k.answers }
    exec-Inside (look f) a c c' e r = exec-Inside (f c.world) a c c' e r
    exec-Inside (send msgtype msg h) a c c' e r =
        let (d, e1, r1) = >>=-eq-some (mod_sendmsg query msgtype msg c) _ r in
        let (answers, queue, modules) = sendmsg_inside msgtype msg a c d e e1 in
        Inside-trans c d c' (Inside-of c d a _ _ e answers queue modules)
          (exec-Inside h _ d c' answers r1)
    exec-Inside (ask msgtype msg k) a c c' e r =
        let (answered, e1, r1) = >>=-eq-some (query msgtype msg c) _ r in
        let asked = contained msgtype msg c answered.0 answered.1 e1 in
        let answers =
          hang_some c answered.0 a (record { msgtype = msgtype; msg = msg }) e asked.answers in
        Inside-trans c answered.0 c'
          (Inside-of c answered.0 a [] (record { msgtype = msgtype; msg = msg } ∷ []) e
            (rw append-nil answers) asked.queue asked.modules)
          (exec-Inside (k answered.1) _ answered.0 c' answers r1)

    exec-Outside :
        (h : Handler W) (c c' : Core W)
        → c.answer_head ≡ none
        → exec query h c ≡ some c'
        → Outside c c'
    unfolding exec hang_answer
    exec-Outside done c c' e r = let e' : c ≡ c' = cc in subst (Outside c) e' (Outside-refl c e)
    exec-Outside (change f h) c c' e r =
        let k = exec-Outside h (record c { world = f c.world }) c' e r in
        record { queue = k.queue; modules = k.modules; no_query = k.no_query }
    exec-Outside (look f) c c' e r = exec-Outside (f c.world) c c' e r
    exec-Outside (send msgtype msg h) c c' e r =
        let (d, e1, r1) = >>=-eq-some (mod_sendmsg query msgtype msg c) _ r in
        let k = sendmsg-Outside msgtype msg c d e e1 in
        Outside-trans c d c' k (exec-Outside h d c' k.no_query r1)
    exec-Outside (ask msgtype msg k) c c' e r =
        let (answered, e1, r1) = >>=-eq-some (query msgtype msg c) _ r in
        let asked = contained msgtype msg c answered.0 answered.1 e1 in
        let closed =
          hang_none c answered.0 (record { msgtype = msgtype; msg = msg }) e asked.answers in
        Outside-trans c answered.0 c'
          (record {
            queue = ([], asked.queue ∙ sym (append-nil c.mod_msgs));
            modules = asked.modules;
            no_query = closed;
          })
          (exec-Outside (k answered.1) answered.0 c' closed r1)

    exec_all-Inside :
        (hs : List (Option (Handler W))) (a : Answers) (c c' : Core W)
        → c.answer_head ≡ some a
        → exec_all query hs c ≡ some c'
        → Inside c c'
    exec_all-Inside [] a c c' e r = let e' : c ≡ c' = cc in subst (Inside c) e' (Inside-refl c)
    exec_all-Inside (none ∷ hs) a c c' e r = exec_all-Inside hs a c c' e r
    exec_all-Inside (some h ∷ hs) a c c' e r =
        let (d, e1, r1) = >>=-eq-some (exec query h c) _ r in
        let k = exec-Inside h a c d e e1 in
        let (more, rest, start) = k.answers a e in
        Inside-trans c d c' k (exec_all-Inside hs _ d c' start r1)

    exec_all-Outside_any :
        (hs : List (Option (Handler W))) (c c' : Core W)
        → c.answer_head ≡ none
        → exec_all query hs c ≡ some c'
        → Outside c c'
    exec_all-Outside_any [] c c' e r =
        let e' : c ≡ c' = cc in subst (Outside c) e' (Outside-refl c e)
    exec_all-Outside_any (none ∷ hs) c c' e r = exec_all-Outside_any hs c c' e r
    exec_all-Outside_any (some h ∷ hs) c c' e r =
        let (d, e1, r1) = >>=-eq-some (exec query h c) _ r in
        let k = exec-Outside h c d e e1 in
        Outside-trans c d c' k (exec_all-Outside_any hs d c' k.no_query r1)

  -- `mod_query` is such a function, at every depth of nesting.
  mod_query-Contained : (depth : ℕ) → Contained (mod_query {W = W} depth)
  unfolding mod_query
  mod_query-Contained zero msgtype msg c c' answers e = cc
  mod_query-Contained (suc depth) msgtype msg c c' answers e =
      let open' : Core W = record c { answer_head = some (record { upto = []; beyond = [] }) } in
      let (d, e1, e2) =
        >>=-eq-some (exec_all (mod_query depth) (receivers c.mod_list msgtype msg) open') _ e in
      let k =
        exec_all-Inside (mod_query depth) (mod_query-Contained depth)
          (receivers c.mod_list msgtype msg) (record { upto = []; beyond = [] }) open' d refl e1 in
      let left : record d {
        answer_head = hang_answer c.answer_head (record { msgtype = msgtype; msg = msg });
      }
          ≡ c' =
        ground arith in
      record {
        queue = sym (ap (λ (x : Core W). x.mod_msgs) left) ∙ k.queue;
        modules = sym (ap (λ (x : Core W). x.mod_list) left) ∙ k.modules;
        answers = sym (ap (λ (x : Core W). x.answer_head) left);
      }

  -- A query that comes to an end has queued nothing and has left the list of modules alone. Of the
  -- answers that are being collected around it, it keeps those up to the head, and its own message
  -- hangs behind them.
  pub mod_query_lem :
      (depth msgtype : ℕ) (msg : Text) (c c' : Core W) (answers : List Message)
      → mod_query depth msgtype msg c ≡ some (c', answers)
      → Asked (record { msgtype = msgtype; msg = msg }) c c'
  mod_query_lem depth msgtype msg c c' answers = mod_query-Contained depth msgtype msg c c' answers

  -- A message that a module sends while a query is being answered, if the sending comes to an end,
  -- is not queued and leaves the list of modules alone. It is added to the answers once, behind
  -- those up to the head, though the query that it is turned into hangs it there as well.
  pub mod_sendmsg_inside :
      (depth msgtype : ℕ) (msg : Text) (a : Answers) (c c' : Core W)
      → c.answer_head ≡ some a
      → mod_sendmsg (mod_query depth) msgtype msg c ≡ some c'
      → (c'.answer_head
          ≡ some (record {
            upto = a.upto ++ (record { msgtype = msgtype; msg = msg }) ∷ [];
            beyond = [];
          }))
        × (c'.mod_msgs ≡ c.mod_msgs)
        × (c'.mod_list ≡ c.mod_list)
  mod_sendmsg_inside depth = sendmsg_inside (mod_query depth) (mod_query-Contained depth)

  -- A list of handlers that runs while no query is open, and comes to an end, queues what it sends
  -- behind what waits, keeps the list of modules, and leaves no query open.
  pub exec_all-Outside :
      (depth : ℕ) (hs : List (Option (Handler W))) (c c' : Core W)
      → c.answer_head ≡ none
      → exec_all (mod_query depth) hs c ≡ some c'
      → Outside c c'
  exec_all-Outside depth = exec_all-Outside_any (mod_query depth) (mod_query-Contained depth)
