-- ===== src/Bus/Effects.antt =====
-- What a handler may do to the state of the core (src/ABasemod.c), inside of a query and outside, and
-- how this composes.
use audiobase.Common.{
  [], ◌∷◌, ◌++◌, append_assoc, append-nil, List, Option, none, some, ◌≡◌, refl, sym, ◌∙◌, arith,
}
use audiobase.Bus.Handlers.{Message, Answers, Core}
use audiobase.Bus.Queue.{◌>>=◌, hang_answer}

pub >>=-eq-some {ℓ κ} :
    {A : Type ℓ} {B : Type κ} (m : Option A) (f : A → Option B) {b : B}
    → (m >>= f) ≡ some b
    → (a : A) × (m ≡ some a) × (f a ≡ some b)
>>=-eq-some none f h = cc
>>=-eq-some (some a) f h = (a, refl, h)

-- Inside a query nothing is queued, and the answers up to the head are kept.
pub record Inside {W : Type 0} (c c' : Core W) : Type 0 where
  pub queue : c'.mod_msgs ≡ c.mod_msgs
  pub modules : c'.mod_list ≡ c.mod_list
  pub answers :
      (a : Answers)
      → c.answer_head ≡ some a
      → (more : List Message) × (rest : List Message) × (c'.answer_head
          ≡ some (record { upto = a.upto ++ more; beyond = rest }))

-- Outside of a query messages are queued behind those that wait.
pub record Outside {W : Type 0} (c c' : Core W) : Type 0 where
  pub queue : (more : List Message) × (c'.mod_msgs ≡ c.mod_msgs ++ more)
  pub modules : c'.mod_list ≡ c.mod_list
  pub no_query : c'.answer_head ≡ none

-- What a query leaves of the state around it.
pub record Asked {W : Type 0} (m : Message) (c c' : Core W) : Type 0 where
  pub queue : c'.mod_msgs ≡ c.mod_msgs
  pub modules : c'.mod_list ≡ c.mod_list
  pub answers : c'.answer_head ≡ hang_answer c.answer_head m

module _ {W : Type 0} where
  pub Inside-refl : (c : Core W) → Inside c c
  Inside-refl c = record {
    queue = refl;
    modules = refl;
    answers = λ a e. ([], a.beyond, rw append-nil e);
  }

  pub Inside-trans : (c d e : Core W) → Inside c d → Inside d e → Inside c e
  Inside-trans c d e p q = record {
    queue = q.queue ∙ p.queue;
    modules = q.modules ∙ p.modules;
    answers = λ a start.
        let (more, rest, first) = p.answers a start in
        let (more', rest', second) = q.answers _ first in
        (more ++ more', rest', rw (← append_assoc a.upto more more') second);
  }

  pub Outside-refl : (c : Core W) → c.answer_head ≡ none → Outside c c
  Outside-refl c h = record {
    queue = ([], sym (append-nil c.mod_msgs));
    modules = refl;
    no_query = h;
  }

  pub Outside-trans : (c d e : Core W) → Outside c d → Outside d e → Outside c e
  Outside-trans c d e p q =
      let (more, first) = p.queue in
      let (more', second) = q.queue in
      record {
        queue = (more ++ more', rw (second, first) (append_assoc c.mod_msgs more more'));
        modules = q.modules ∙ p.modules;
        no_query = q.no_query;
      }

  pub Inside-of :
      (c c' : Core W) (a : Answers) (more rest : List Message)
      → c.answer_head ≡ some a
      → c'.answer_head ≡ some (record { upto = a.upto ++ more; beyond = rest })
      → c'.mod_msgs ≡ c.mod_msgs
      → c'.mod_list ≡ c.mod_list
      → Inside c c'
  Inside-of c c' a more rest e answers queue modules = record {
    queue = queue;
    modules = modules;
    answers = λ b start. let same : a ≡ b = cc in (more, rest, rw (← same) answers);
  }

  pub hang_some :
      (c c' : Core W) (a : Answers) (m : Message)
      → c.answer_head ≡ some a
      → c'.answer_head ≡ hang_answer c.answer_head m
      → c'.answer_head ≡ some (record { upto = a.upto; beyond = m ∷ [] })
  unfolding hang_answer
  hang_some c c' a m e h = ground arith

  pub hang_none :
      (c c' : Core W) (m : Message)
      → c.answer_head ≡ none
      → c'.answer_head ≡ hang_answer c.answer_head m
      → c'.answer_head ≡ none
  unfolding hang_answer
  hang_none c c' m e h = ground arith
