-- ===== src/Display/ClockMode.antt =====
-- The flag of the clock of src/mod_lcdproc.c, which no message and no update ever sets.
use audiobase.Common.{
  ℕ, Bool, true, false, ◌&&◌, ◌==◌, Option, none, some, not, ltb, ◌≡◌, refl, ◌∙◌, if◌then◌else◌, ℤ,
  pos, leb_ℤ, eqb_ℤ,
}
use audiobase.Text.{Text, codes, strtok, blanks, nocase_eq, atoi}
use audiobase.Bus.Msgtype
use audiobase.Commands.{whole_rest}
use audiobase.Mpd.{MpdState}
use audiobase.Display.Globals.{Lcd}
use audiobase.Display.Draw.{Sources, timed_out, mod_lcdproc_refresh}
use audiobase.Display.Clock.{mod_lcdproc_timedisplay, mod_lcdproc_clockstart}
use audiobase.Display.Poll.{number}
use audiobase.Display.Events.{
  is_idle, idle_time, on_idle, clock_step, tell, displaymode, time_message, sleep_message,
  mixer_message, play_message, event_message, info_message, dispatch, dispatch_words,
  mod_lcdproc_message,
}
use audiobase.Display.Update.{tmp_step, browser_step, update_lcd}
use audiobase.Display.Kept.{
  Kept, Keeps, fault, kept, Kept-refl, Kept-trans, Keeps-trans, Keeps-bind, Keeps-text, Keeps-if,
  Kept-if, Keeps-elim, settmp-Keeps, refreshtime-Keeps,
}
use audiobase.Display.DrawKept.{browser_remove-Keeps, refresh-Keeps}

Keeps-off :
    {d : Lcd} (b : Bool) (x : Option Lcd) {y : Option Lcd}
    → b ≡ false
    → Keeps d y
    → Keeps d (if b then x else y)
Keeps-off true x h p = cc
Keeps-off false x h p = p

Keeps-words :
    {A : Type 0} {d : Lcd} (o : Option A) {x : Option Lcd} {f : A → Option Lcd}
    → Keeps d x
    → ((t : A) → Keeps d (f t))
    → Keeps d (elim o [ none ↦ x | some t ↦ f t ])
Keeps-words none p q = p
Keeps-words (some t) p q = q t

clockstart-Kept : (src : Sources) (d : Lcd) → Kept d (mod_lcdproc_clockstart src d)
unfolding mod_lcdproc_clockstart mod_lcdproc_timedisplay
clockstart-Kept src d = record { connected = refl; wid = refl; hgt = refl; clockmode = refl }

on_idle-Keeps :
    (src : Sources) (msg : Text) (d : Lcd) → d.clockmode ≡ false → Keeps d (on_idle src msg d)
unfolding on_idle
on_idle-Keeps src msg d off = Keeps-off d.clockmode _ off (
    Keeps-if (eqb_ℤ d.clocktimer (pos 0)) (kept (Kept-refl d)) (
      Keeps-text (idle_time msg)
        (λ t. kept (Kept-if (leb_ℤ d.clocktimer t) (clockstart-Kept src d) (Kept-refl d)))))

clock_step-Keeps :
    (src : Sources) (msgtype : ℕ) (msg : Text) (d : Lcd)
    → d.clockmode ≡ false
    → Keeps d (clock_step src msgtype msg d)
unfolding clock_step
clock_step-Keeps src msgtype msg d off =
    Keeps-if (msgtype == Msgtype.event && is_idle msg) (on_idle-Keeps src msg d off)
      (Keeps-off d.clockmode _ off (kept (Kept-refl d)))

-- Fields that messages change.
mode-Kept : (d : Lcd) {m : ℤ} → Kept d (record d { mode = m })
mode-Kept d = record { connected = refl; wid = refl; hgt = refl; clockmode = refl }

time-Kept :
    (d : Lcd) {a b c : ℤ} {u : Bool}
    → Kept d (record d { time1 = a; time2 = b; time_len = c; updatesong_data = u })
time-Kept d = record { connected = refl; wid = refl; hgt = refl; clockmode = refl }

play-Kept :
    (d : Lcd) {p : Text} {a b c : ℤ} {u : Bool}
    → Kept d (record d { playmode = p; time1 = a; time2 = b; time_len = c; updatesong_data = u })
play-Kept d = record { connected = refl; wid = refl; hgt = refl; clockmode = refl }

flags-Kept :
    (d : Lcd) {a b c : ℤ} {s : Bool}
    → Kept d (record d { repeat = a; shuffle = b; mute = c; sleep = s })
flags-Kept d = record { connected = refl; wid = refl; hgt = refl; clockmode = refl }

refresh_after : (src : Sources) {d e : Lcd} → Kept d e → Keeps d (mod_lcdproc_refresh src e)
refresh_after src p = Keeps-trans p (refresh-Keeps src _)

displaymode-Keeps : (d : Lcd) → Keeps d (displaymode d)
unfolding displaymode
displaymode-Keeps d = Keeps-trans (mode-Kept d) (refreshtime-Keeps _)

time_message-Keeps : (rest : Text) (d : Lcd) → Keeps d (time_message rest d)
unfolding time_message
time_message-Keeps rest d = Keeps-trans (time-Kept d) (refreshtime-Keeps _)

tell-Keeps : (src : Sources) (text : Text) (d : Lcd) → Keeps d (tell src text d)
tell-Keeps src text d = settmp-Keeps src.now (some text) (pos 0) false d

sleep_message-Keeps : (src : Sources) (rest : Text) (d : Lcd) → Keeps d (sleep_message src rest d)
unfolding sleep_message
sleep_message-Keeps src rest d = Keeps-elim (strtok blanks rest) (λ words.
    Keeps-bind
      (Keeps-if (nocase_eq words.0 (codes "trigered"))
        (Keeps-bind (tell-Keeps src _ d) (λ e. kept (flags-Kept e)))
        (Keeps-if (nocase_eq words.0 (codes "decreased")) (tell-Keeps src _ d) (
          Keeps-if (eqb_ℤ (atoi words.0) (pos 0))
            (Keeps-bind (tell-Keeps src _ d) (λ e. kept (flags-Kept e)))
            (Keeps-bind (tell-Keeps src _ d) (λ e. kept (flags-Kept e))))))
      (λ e. refresh-Keeps src e))

mixer_message-Keeps : (src : Sources) (rest : Text) (d : Lcd) → Keeps d (mixer_message src rest d)
unfolding mixer_message
mixer_message-Keeps src rest d = Keeps-words (strtok blanks rest) (kept (Kept-refl d)) (λ words.
    Keeps-if (nocase_eq words.0 (codes "volume")) (settmp-Keeps _ _ _ _ d) (
      Keeps-if (nocase_eq words.0 (codes "balance")) (settmp-Keeps _ _ _ _ d) (
        Keeps-if (nocase_eq words.0 (codes "bass")) (settmp-Keeps _ _ _ _ d) (
          Keeps-if (nocase_eq words.0 (codes "treble")) (settmp-Keeps _ _ _ _ d) (
            Keeps-if (nocase_eq words.0 (codes "mute")) (refresh_after src (flags-Kept d))
              (kept (Kept-refl d)))))))

play_message-Keeps :
    (src : Sources) (c1 rest : Text) (d : Lcd) → Keeps d (play_message src c1 rest d)
unfolding play_message
play_message-Keeps src c1 rest d =
    Keeps-if (nocase_eq c1 (codes "mixer")) (mixer_message-Keeps src rest d) (
      Keeps-if (nocase_eq c1 (codes "play")) (refresh_after src (play-Kept d)) (
        Keeps-if (nocase_eq c1 (codes "stop")) (refresh_after src (play-Kept d)) (
          Keeps-if (nocase_eq c1 (codes "unpause"))
            (Keeps-trans (play-Kept d) (refreshtime-Keeps _))
            (Keeps-if (nocase_eq c1 (codes "pause"))
              (Keeps-trans (play-Kept d) (refreshtime-Keeps _))
              (Keeps-if (nocase_eq c1 (codes "halt")) (refresh_after src (play-Kept d))
                (kept (Kept-refl d)))))))

event_message-Keeps :
    (src : Sources) (c1 rest : Text) (d : Lcd) → Keeps d (event_message src c1 rest d)
unfolding event_message
event_message-Keeps src c1 rest d =
    Keeps-if (nocase_eq c1 (codes "repeat")) (refresh_after src (flags-Kept d)) (
      Keeps-if (nocase_eq c1 (codes "shuffle")) (refresh_after src (flags-Kept d)) (
        Keeps-if (nocase_eq c1 (codes "sleep")) (sleep_message-Keeps src rest d) (
          Keeps-if (nocase_eq c1 (codes "alarm"))
            (Keeps-if (eqb_ℤ (number (whole_rest rest)) (pos 0)) (tell-Keeps src _ d)
              (tell-Keeps src _ d))
            (Keeps-if (nocase_eq c1 (codes "loadplaylist")) (tell-Keeps src _ d)
              (play_message-Keeps src c1 rest d)))))

info_message-Keeps :
    (src : Sources) (c1 rest : Text) (d : Lcd) → Keeps d (info_message src c1 rest d)
unfolding info_message
info_message-Keeps src c1 rest d = Keeps-words (strtok blanks rest) (kept (Kept-refl d)) (λ words.
    Keeps-if (nocase_eq c1 (codes "browser"))
      (Keeps-if (nocase_eq words.0 (codes "info")) (tell-Keeps src _ d) (kept (Kept-refl d)))
      (Keeps-if (nocase_eq c1 (codes "lcdproc"))
        (Keeps-if (nocase_eq words.0 (codes "refresh")) (refresh-Keeps src d) (kept (Kept-refl d)))
        (kept (Kept-refl d))))

dispatch-Keeps :
    (src : Sources) (msgtype : ℕ) (c1 rest : Text) (d : Lcd)
    → Keeps d (dispatch src msgtype c1 rest d)
unfolding dispatch
dispatch-Keeps src msgtype c1 rest d =
    Keeps-if (msgtype == Msgtype.input)
      (Keeps-if (nocase_eq c1 (codes "displaymode")) (displaymode-Keeps d) (kept (Kept-refl d)))
      (Keeps-if (msgtype == Msgtype.player)
        (Keeps-if (nocase_eq c1 (codes "time")) (time_message-Keeps rest d) (kept (Kept-refl d)))
        (Keeps-if (msgtype == Msgtype.event) (event_message-Keeps src c1 rest d) (
          Keeps-if (msgtype == Msgtype.info) (info_message-Keeps src c1 rest d)
            (kept (Kept-refl d)))))

dispatch_words-Keeps :
    (src : Sources) (msgtype : ℕ) (words : Option (Text × Text)) (d : Lcd)
    → Keeps d (dispatch_words src msgtype words d)
dispatch_words-Keeps src msgtype none d = kept (Kept-refl d)
dispatch_words-Keeps src msgtype (some (c1, rest)) d = dispatch-Keeps src msgtype c1 rest d

message-Keeps :
    (src : Sources) (msgtype : ℕ) (msg : Text) (d : Lcd)
    → d.clockmode ≡ false
    → Keeps d (mod_lcdproc_message src msgtype msg d)
unfolding mod_lcdproc_message
message-Keeps src msgtype msg d off =
    Keeps-if d.connected
      (Keeps-bind (clock_step-Keeps src msgtype msg d off)
        (λ e. dispatch_words-Keeps src msgtype (strtok blanks msg) e))
      (kept (Kept-refl d))

timeout-Kept : (d : Lcd) → Kept d (record d { tmptimeout = 0 })
timeout-Kept d = record { connected = refl; wid = refl; hgt = refl; clockmode = refl }

player-Kept : (d : Lcd) {m : MpdState} → Kept d (record d { player = m })
player-Kept d = record { connected = refl; wid = refl; hgt = refl; clockmode = refl }

update-Keeps : (src : Sources) (d : Lcd) → Keeps d (update_lcd src d)
unfolding update_lcd tmp_step browser_step
update-Keeps src d =
    Keeps-bind
      (Keeps-bind
        (Keeps-if (not (d.tmptimeout == 0) && not (ltb src.now d.tmptimeout))
          (Keeps-trans (timeout-Kept d) (settmp-Keeps _ _ _ _ _)) (kept (Kept-refl d)))
        (λ e. Keeps-if (timed_out src.now e) (browser_remove-Keeps src e) (kept (Kept-refl e))))
      (λ e. Keeps-trans (player-Kept e) (refresh-Keeps src _))

-- What happens to the display while it is connected: messages and updates, with the time and the
-- state of the player as they are at each.
pub data Step (d : Lcd) : Lcd → Type 0 where
  message :
      {e : Lcd} (src : Sources) (msgtype : ℕ) (msg : Text)
      → mod_lcdproc_message src msgtype msg d ≡ some e
      → Step d e
  update : {e : Lcd} (src : Sources) → update_lcd src d ≡ some e → Step d e

pub data Steps (d : Lcd) : Lcd → Type 0 where
  here : Steps d d
  next : {e f : Lcd} → Steps d e → Step e f → Steps d f

Keeps-some : {d e : Lcd} {o : Option Lcd} → Keeps d o → o ≡ some e → Kept d e
Keeps-some fault h = cc
Keeps-some {d} {e} (kept {d'} p) h = let same : d' ≡ e = cc in rw (← same) p

Step-Kept : {d e : Lcd} → d.clockmode ≡ false → Step d e → Kept d e
Step-Kept off (message src msgtype msg h) = Keeps-some (message-Keeps src msgtype msg _ off) h
Step-Kept off (update src h) = Keeps-some (update-Keeps src _) h

-- If the flag of the clock is not set, then whatever messages and updates follow, it is never set,
-- the connection is as it was, and so is the size of the display.
pub Steps-Kept : {d e : Lcd} → d.clockmode ≡ false → Steps d e → Kept d e
Steps-Kept off here = Kept-refl _
Steps-Kept off (next steps step) =
    let p = Steps-Kept off steps in Kept-trans p (Step-Kept (p.clockmode ∙ off) step)
