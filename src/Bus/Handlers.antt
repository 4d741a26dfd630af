-- ===== src/Bus/Handlers.antt =====
-- The data of src/ABasemod.h, and the state of src/ABasemod.c. The functions of a module are
-- programs over the calls that the core offers them, so that a handler may send messages, pose
-- queries and read the answers; W is the state that the modules keep for themselves.
use audiobase.Common.{ℕ, [], ◌++◌, List, Bool, Option, none, some, ℤ}
use audiobase.Text.{Text}

-- `mod_message_t`, without the link
pub record Message : Type 0 where
  pub msgtype : ℕ
  pub msg : Text

pub data Handler (W : Type 0) : Type 0 where
  done : Handler W
  change : (W → W) → Handler W → Handler W
  look : (W → Handler W) → Handler W
  send : ℕ → Text → Handler W → Handler W
  ask : ℕ → Text → (List Message → Handler W) → Handler W

-- `mod_t`: a function that a module does not have is NULL. `watchfd_set` lists the descriptors that
-- are set, and `chld` takes the process and its status.
pub record Mod (W : Type 0) : Type 0 where
  pub mod_name : Text
  pub deinit : Option (Handler W)
  pub reload : Option (Handler W)
  pub watchfd_set : List ℕ
  pub poll : Option (ℕ → Handler W)
  pub update : Option (Handler W)
  pub message : Option (ℕ → Text → Handler W)
  pub chld : Option (ℤ → ℤ → Handler W)

-- The list of answers that `answer_head` points into: what stands up to that node, without the
-- first one, which is empty, and what is linked behind it.
pub record Answers : Type 0 where
  pub upto : List Message
  pub beyond : List Message

abbrev pub all_answers : Option Answers → List Message
all_answers none = []
all_answers (some a) = a.upto ++ a.beyond

-- The globals. `reloading` is the flag that a SIGHUP sets in src/ABased.c.
pub record Core (W : Type 0) : Type 0 where
  pub mod_list : List (Mod W)
  pub mod_msgs : List Message
  pub answer_head : Option Answers
  pub reloading : Bool
  pub world : W
