-- ===== src/Display/Kept.antt =====
-- What drawing leaves alone (src/mod_lcdproc.c): the connection, the size of the display and the flag
-- of the clock.
use audiobase.Common.{
  ℕ, List, Bool, ◌+◌, true, false, not, Option, none, some, ◌≡◌, refl, ◌∙◌, if◌then◌else◌, ℤ,
}
use audiobase.Text.{Text, is_empty}
use audiobase.State.{PlayState, stopped, unknown, playing, paused}
use audiobase.Bus.{◌>>=◌}
use audiobase.Display.Globals.{Lcd, Command}
use audiobase.Display.Widgets.{
  Align, align_text, string_width, mod_lcdproc_setstring, mod_lcdproc_setscroller, pad_to, tmp_text,
  tmp_bar, mod_lcdproc_settmp,
}
use audiobase.Display.Time.{mod_lcdproc_refreshtime}

pub record Kept (d d' : Lcd) : Type 0 where
  pub connected : d'.connected ≡ d.connected
  pub wid : d'.wid ≡ d.wid
  pub hgt : d'.hgt ≡ d.hgt
  pub clockmode : d'.clockmode ≡ d.clockmode

-- The same of a result, if there is one.
pub data Keeps (d : Lcd) : Option Lcd → Type 0 where
  fault : Keeps d none
  kept : {d' : Lcd} → Kept d d' → Keeps d (some d')

pub Kept-refl : (d : Lcd) → Kept d d
Kept-refl d = record { connected = refl; wid = refl; hgt = refl; clockmode = refl }

pub Kept-trans : {d e f : Lcd} → Kept d e → Kept e f → Kept d f
Kept-trans p q = record {
  connected = q.connected ∙ p.connected;
  wid = q.wid ∙ p.wid;
  hgt = q.hgt ∙ p.hgt;
  clockmode = q.clockmode ∙ p.clockmode;
}

pub Keeps-trans : {d e : Lcd} {o : Option Lcd} → Kept d e → Keeps e o → Keeps d o
Keeps-trans p fault = fault
Keeps-trans p (kept q) = kept (Kept-trans p q)

pub Keeps-bind :
    {d : Lcd} {m : Option Lcd} {f : Lcd → Option Lcd}
    → Keeps d m
    → ((e : Lcd) → Keeps e (f e))
    → Keeps d (m >>= f)
Keeps-bind fault q = fault
Keeps-bind (kept p) q = Keeps-trans p (q _)

pub Keeps-text :
    {A : Type 0} {d : Lcd} (m : Option A) {f : A → Option Lcd}
    → ((t : A) → Keeps d (f t))
    → Keeps d (m >>= f)
Keeps-text none q = fault
Keeps-text (some t) q = q t

pub Keeps-if :
    {d : Lcd} (b : Bool) {x y : Option Lcd} → Keeps d x → Keeps d y → Keeps d (if b then x else y)
Keeps-if true p q = p
Keeps-if false p q = q

pub Kept-if : {d : Lcd} (b : Bool) {x y : Lcd} → Kept d x → Kept d y → Kept d (if b then x else y)
Kept-if true p q = p
Kept-if false p q = q

pub sent : (d : Lcd) {cs : List Command} → Kept d (record d { sent = cs })
sent d = record { connected = refl; wid = refl; hgt = refl; clockmode = refl }

pub Keeps-elim :
    {A : Type 0} {d : Lcd} (o : Option A) {f : A → Option Lcd}
    → ((t : A) → Keeps d (f t))
    → Keeps d (elim o [ none ↦ none | some t ↦ f t ])
Keeps-elim none q = fault
Keeps-elim (some t) q = q t

pub ruleset keeping = (Keeps-if, Keeps-elim, Kept-if, kept, fault, Kept-refl, sent)

pub setstring-Keeps :
    (name : Text) (y : ℤ) (text : Text) (align : Align) (d : Lcd)
    → Keeps d (mod_lcdproc_setstring name y text align d)
unfolding mod_lcdproc_setstring
setstring-Keeps name y text align d = Keeps-if (not d.connected) (kept (Kept-refl d)) (
    Keeps-if (is_empty text) (kept (sent d))
      (Keeps-elim (align_text (string_width d y align) align text) (λ buf. kept (sent d))))

pub setscroller-Kept :
    (name : Text) (y : ℤ) (text : Text) (d : Lcd) → Kept d (mod_lcdproc_setscroller name y text d)
unfolding mod_lcdproc_setscroller
setscroller-Kept name y text d = search keeping

tmp_text-Keeps : (text : Option Text) (d : Lcd) → Keeps d (tmp_text text d)
unfolding tmp_text
tmp_text-Keeps none d = setstring-Keeps _ _ _ _ d
tmp_text-Keeps (some text) d =
    Keeps-if _ (Keeps-text (pad_to 128 32 d.wid text) (λ buf. setstring-Keeps _ _ _ _ d)) fault

tmp_bar-Kept :
    (text : Option Text) (percent : ℤ) (centerbar : Bool) (d : Lcd)
    → Kept d (tmp_bar text percent centerbar d)
unfolding tmp_bar
tmp_bar-Kept text percent centerbar d = Kept-if _ (sent d) (sent d)

pub settmp-Keeps :
    (now : ℕ) (text : Option Text) (percent : ℤ) (centerbar : Bool) (d : Lcd)
    → Keeps d (mod_lcdproc_settmp now text percent centerbar d)
unfolding mod_lcdproc_settmp
settmp-Keeps now text percent centerbar d =
    let later = record d { tmptimeout = now + 4 } in
    let same : Kept d later = record {
      connected = refl;
      wid = refl;
      hgt = refl;
      clockmode = refl;
    } in
    Keeps-if _ (kept (Kept-refl d)) (
      Keeps-if _ (Keeps-bind (tmp_text-Keeps none d) (λ e. kept (sent e))) (
        Keeps-trans same (
          Keeps-bind (tmp_text-Keeps text later)
            (λ e. kept (tmp_bar-Kept text percent centerbar e)))))

-- The branches on the state of the player.
pub Keeps-state :
    {d : Lcd} (s : PlayState) {x y : Option Lcd}
    → Keeps d x
    → Keeps d y
    → Keeps d (elim s [ stopped ↦ x | unknown ↦ y | playing ↦ y | paused ↦ y ])
Keeps-state stopped p q = p
Keeps-state unknown p q = q
Keeps-state playing p q = q
Keeps-state paused p q = q

pub refreshtime-Keeps : (d : Lcd) → Keeps d (mod_lcdproc_refreshtime d)
unfolding mod_lcdproc_refreshtime
refreshtime-Keeps d = Keeps-state d.player.player.state fault (setstring-Keeps _ _ _ _ d)
