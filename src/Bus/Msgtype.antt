-- ===== src/Bus/Msgtype.antt =====
-- The types of messages: the macros MSGTYPE_* of src/ABasemod.h.
use audiobase.Common.{ℕ}

abbrev pub event : ℕ
event = 0

abbrev pub input : ℕ
input = 1

abbrev pub player : ℕ
player = 2

abbrev pub info : ℕ
info = 3

abbrev pub query : ℕ
query = 4
