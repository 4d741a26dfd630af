-- ===== src/Mpd/Returns.antt =====
-- When `mod_mpd_message` of src/mod_mpd.c returns.
use audiobase.Common.{List, false, some, ◌==◌, ◌≡◌, All}
use audiobase.Text.{Text}
use audiobase.Bus.Msgtype
use audiobase.Mpd.Player.{Sent, MpdState}
use audiobase.Mpd.Message.{MpdResult}

-- Without a percent sign.
abbrev pub IsPlain : Text → Type 0
IsPlain s = All (λ c. (c == b'%') ≡ false) s

-- A result that is no crash.
abbrev pub Returns : MpdResult → Type 0
Returns r = (m' : MpdState) × (sent : List Sent) × (r ≡ some (m', sent))
