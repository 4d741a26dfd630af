-- ===== src/Bus/Quiet.antt =====
-- `mod_update` of src/ABasemod.c ends: a queue of n messages takes n rounds, if the handlers send
-- nothing. (A handler that answers each message by another one keeps it busy for ever.)
use audiobase.Common.{
  ℕ, zero, suc, ◌<◌, [], ◌∷◌, List, Bool, true, false, Option, none, some, ◌≡◌, refl, arith,
  if◌then◌else◌, Bool-cases, inl, inr, ◌⊎◌, length, All,
}
use audiobase.Text.{Text}
use audiobase.Bus.Handlers.{Message, Handler, done, change, look, send, ask, Mod, Core}
use audiobase.Bus.Queue.{Query, exec, exec_all, receivers, mod_query, handle, drain, is_reload}

abbrev pub any_reload : List Message → Bool
any_reload [] = false
any_reload (m ∷ ms) = if is_reload m then true else any_reload ms

flag_join :
    (a b x : Bool)
    → (if b then true else (if a then true else x)) ≡ (if (if a then true else b) then true else x)
flag_join true true x = refl
flag_join true false x = refl
flag_join false b x = refl

module _ {W : Type 0} where
  -- A handler that changes the state of the modules only.
  abbrev pub IsQuiet : Handler W → Type 0
  IsQuiet done = Unit {0}
  IsQuiet (change f h) = IsQuiet h
  IsQuiet (look f) = (w : W) → IsQuiet (f w)
  IsQuiet (send msgtype msg h) = ⊥
  IsQuiet (ask msgtype msg k) = ⊥

  abbrev pub IsQuietReceiver : Option (ℕ → Text → Handler W) → Type 0
  IsQuietReceiver none = Unit {0}
  IsQuietReceiver (some f) = (msgtype : ℕ) (msg : Text) → IsQuiet (f msgtype msg)

  -- What a quiet handler makes of the state.
  pub effect : Handler W → W → W
  effect done w = w
  effect (change f h) w = effect h (f w)
  effect (look f) w = effect (f w) w
  effect (send msgtype msg h) w = w
  effect (ask msgtype msg k) w = w

  -- One message, given to the modules one after the other.
  pub deliver : List (Mod W) → Message → W → W
  deliver [] m w = w
  deliver (d ∷ ds) m w = elim d.message [
    | none ↦ deliver ds m w
    | some f ↦ deliver ds m (effect (f m.msgtype m.msg) w)
  ]

  -- A queue, message by message; the input `reload` is kept from the modules.
  pub deliver_all : List (Mod W) → List Message → W → W
  deliver_all ds [] w = w
  deliver_all ds (m ∷ ms) w = deliver_all ds ms (if is_reload m then w else deliver ds m w)

  exec-effect :
      (query : Query W) (h : Handler W) (c : Core W)
      → IsQuiet h
      → exec query h c ≡ some (record c { world = effect h c.world })
  unfolding exec effect
  exec-effect query done c q = refl
  exec-effect query (change f h) c q = exec-effect query h (record c { world = f c.world }) q
  exec-effect query (look f) c q = exec-effect query (f c.world) c (q c.world)
  exec-effect query (send msgtype msg h) c q = absurd q
  exec-effect query (ask msgtype msg k) c q = absurd q

  exec_all-deliver :
      (query : Query W) (ds : List (Mod W)) (m : Message) (c : Core W)
      → All (λ d. IsQuietReceiver d.message) ds
      → exec_all query (receivers ds m.msgtype m.msg) c
        ≡ some (record c { world = deliver ds m c.world })
  unfolding deliver
  exec_all-deliver query [] m c q = refl
  exec_all-deliver query (d ∷ ds) m c q = elim (receiver_cases d.message q.0) [
    | inl e ↦ rw (e, receivers, deliver) (exec_all-deliver query ds m c q.1)
    | inr (f, e, quiet) ↦
        rw (e, receivers, deliver, exec-effect query (f m.msgtype m.msg) c (quiet m.msgtype m.msg))
          (exec_all-deliver query ds m (record c { world = effect (f m.msgtype m.msg) c.world })
            q.1)
  ]
    where
      receiver_cases :
          (o : Option (ℕ → Text → Handler W))
          → IsQuietReceiver o
          → (o ≡ none)
            ⊎ ((f : ℕ → Text → Handler W) × (o ≡ some f)
                × ((msgtype : ℕ) (msg : Text) → IsQuiet (f msgtype msg)))
      receiver_cases none q' = inl refl
      receiver_cases (some f) q' = inr (f, refl, q')

  handle_quiet :
      (depth : ℕ) (m : Message) (c : Core W)
      → All (λ d. IsQuietReceiver d.message) c.mod_list
      → handle depth m c
        ≡ some (record c {
          reloading = if is_reload m then true else c.reloading;
          world = if is_reload m then c.world else deliver c.mod_list m c.world;
        })
  unfolding handle
  handle_quiet depth m c q = elim (Bool-cases (is_reload m)) [
    | inl reload ↦ rw (reload, handle)
    | inr other ↦ rw (other, handle) (exec_all-deliver (mod_query depth) c.mod_list m c q)
  ]

  -- If no handler sends or asks anything, a queue that is shorter than the number of rounds is
  -- emptied: each message is given once to each module that has a message function, message by
  -- message in the order of the queue and module by module in the order of the list. The input
  -- `reload` is kept from the modules and sets the flag.
  pub drain_quiet :
      (rounds depth : ℕ) (msgs : List Message) (c : Core W)
      → All (λ d. IsQuietReceiver d.message) c.mod_list
      → length msgs < rounds
      → drain rounds depth (record c { mod_msgs = msgs })
        ≡ some (record c {
          mod_msgs = [];
          reloading = if any_reload msgs then true else c.reloading;
          world = deliver_all c.mod_list msgs c.world;
        })
  unfolding drain deliver_all
  drain_quiet zero depth msgs c q h = absurd (omega arith)
  drain_quiet (suc rounds) depth [] c q h = refl
  drain_quiet (suc rounds) depth (m ∷ ms) c q h = rw (
    handle_quiet depth m (record c { mod_msgs = m ∷ ms }) q,
    drain_quiet rounds depth ms
        (record c {
          reloading = if is_reload m then true else c.reloading;
          world = if is_reload m then c.world else deliver c.mod_list m c.world;
        })
        q (omega arith),
    flag_join (is_reload m) (any_reload ms) c.reloading,
  )
