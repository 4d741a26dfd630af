-- ===== src/Browser/ScriptTests.antt =====
-- Tests of the scripts and the settings of the browser (src/mod_browser.c), and the theorems at
-- concrete inputs.
use audiobase.Common.{[], ◌∷◌, ◌++◌, true, false, not, some, none, ◌≡◌, refl, ◌⊎◌, arith, pos}
use audiobase.Text.{codes, nocase_eq, to_lower}
use audiobase.State.{Browser}
use audiobase.Bus.Msgtype
use audiobase.Tools.Answers.{sent_lines}
use audiobase.Config.{Config, config_getstr}
use audiobase.Browser.{
  Child, send_message, mod_browser_execute, mod_browser_script, wait_child, mod_browser_sigchld,
  report, Settings, mod_browser_reload, below, without_slash,
}
use audiobase.Browser.Reports.{commands, mod_browser_execute-messages}
use audiobase.Browser.Paths.{IsAbsolute, mod_browser_reload-IsAbsolute}

abbrev child : Child
child = record { pid = pos 0; status = pos 0; exited = false }

-- A script that fails, and one of which the core never hears.
fails :
    (mod_browser_execute false (pos 7) ((pos 7, pos 256) ∷ []) none child
      ≡ some (
        send_message Msgtype.info (codes "browser info Error") ∷ [],
        record { pid = pos 7; status = pos 256; exited = true },
      ))
    × (mod_browser_execute false (pos 7) [] none child ≡ none)
unfolding mod_browser_execute mod_browser_script wait_child mod_browser_sigchld report
fails = (refl, refl)

mod_browser_execute-messages_example :
    mod_browser_execute false
      (pos 7)
      (((pos 5, pos 1) ∷ []) ++ (pos 7, pos 0) ∷ [])
      (some (record {
        bytes = sent_lines (codes "ok" ∷ codes "play" ∷ []) (codes "st");
        failing = false;
      }))
      child
    ≡ some (
      send_message Msgtype.info (codes "browser info " ++ codes "ok")
          ∷ commands (codes "play" ∷ []),
      record { pid = pos 7; status = pos 0; exited = true },
    )
mod_browser_execute-messages_example =
    mod_browser_execute-messages (pos 7) ((pos 5, pos 1) ∷ []) [] (codes "ok") (codes "play" ∷ [])
      (codes "st") child refl (refl, tt)
      (((refl, (refl, tt)), omega arith), (((refl, (refl, (refl, (refl, tt)))), omega arith), tt))
      ((refl, (refl, tt)), omega arith)

abbrev empty : Settings
empty = record {
  activate_first = false;
  mask_audio = [];
  mask_list = [];
  mask_listlist = [];
  mask_exec = [];
  mask_hide = [];
  mask_sensitiveflag = 0;
  pwddepth = pos 1;
  cdup = false;
  cdup_initial_updir = false;
  root = [];
  exec = [];
  execmsg = [];
  list = [];
  path = [];
}

abbrev browser : Browser
browser = record {
  head_line_fixed = [];
  current_dir = [];
  active = true;
  elements = [];
  spare = [];
  display_pos = pos 0;
  cursor_pos = pos 0;
}

abbrev config : Config
config =
    record { key = codes "browser_root"; value = codes "/mp3" }
    ∷ record { key = codes "browser_home"; value = codes "rock/" }
    ∷ record { key = codes "browser_activate_first"; value = codes "no" }
    ∷ []

-- The slash at the end of the home directory is dropped.
home :
    (((mod_browser_reload config (empty, browser)).0).path ≡ codes "/mp3/rock")
    × (((mod_browser_reload config (empty, browser)).0).list ≡ codes "/mp3//")
unfolding mod_browser_reload below without_slash config_getstr nocase_eq to_lower
home = (refl, refl)

mod_browser_reload-IsAbsolute_example :
    IsAbsolute ((mod_browser_reload config (empty, browser)).0).root
    × IsAbsolute ((mod_browser_reload config (empty, browser)).0).path
    × (((mod_browser_reload config (empty, browser)).0).exec ≡ []
        ⊎ IsAbsolute ((mod_browser_reload config (empty, browser)).0).exec)
    × (((mod_browser_reload config (empty, browser)).1).active
        ≡ not ((mod_browser_reload config (empty, browser)).0).activate_first)
mod_browser_reload-IsAbsolute_example = mod_browser_reload-IsAbsolute config empty browser
