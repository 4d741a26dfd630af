-- ===== src/Browser/Message.antt =====
-- `mod_browser_add` and `mod_browser_message` of src/mod_browser.c.
use audiobase.Common.{
  ℕ, [], ◌∷◌, ◌++◌, List, Bool, true, false, ◌&&◌, ◌||◌, Option, none, some, ◌==◌, if◌then◌else◌,
}
use audiobase.Text.{Text, codes, text_eq, nocase_eq, strtok, blanks}
use audiobase.State.{Browser, info_directory, info_songfile, info_playlist}
use audiobase.Bus.Msgtype
use audiobase.Commands.{Start, ignored, command, read_command, whole_rest}
use audiobase.Browser.Cursor.{mod_browser_cursor}
use audiobase.Browser.Directory.{
  Entity, DirEntry, under_cursor, mod_browser_back, mod_browser_into, mod_browser_intodirscan,
  mod_browser_open,
}

-- What the browser has other modules do: the display (`mod_lcdproc_…`), the player's server
-- (`mpd_send…`, `mod_mpd_…`), the queue of messages, and a script.
pub data Action : Type 0 where
  browser_remove reset_timer refresh_browser refresh : Action
  mpd_add mpd_load : Text → Action
  mpd_clear mpd_play : Action
  send_message : ℕ → Text → Action
  execute : Text → Action

-- A handler's result; `none` means that it reads an entry that is not allocated.
abbrev pub Result : Type 0
Result = Option (Browser × List Action)

-- `mod_lcdproc_browser_remove` clears the status and `mod_lcdproc_refresh_browser` sets it.
abbrev pub removed : Browser → Browser
removed b = record b { active = false }

abbrev pub shown_again : Browser → Browser
shown_again b = record b { active = true }

unfoldable pub mod_browser_add : Browser → Result
mod_browser_add b = elim (under_cursor b) [
  | none ↦ none
  | some e ↦
      if text_eq e.name (codes "..")
      then some (b, [])
      else if e.info_type == info_directory || e.info_type == info_songfile
      then some (
        removed b,
        mpd_add e.info_path
            ∷ browser_remove
            ∷ send_message Msgtype.info (codes "browser info added files/dir.")
            ∷ [],
      )
      else if e.info_type == info_playlist
      then some (
        removed b,
        mpd_load e.info_path
            ∷ browser_remove
            ∷ send_message Msgtype.info (codes "browser info added playlist.")
            ∷ [],
      )
      else some (b, send_message Msgtype.info (codes "browser info Error") ∷ [])
]

-- After a movement the timer is set again and the display is refreshed.
abbrev pub moved : Option Browser → List Action → Result
moved none actions = none
moved (some b) actions = some (shown_again b, actions ++ (reset_timer ∷ refresh_browser ∷ []))

abbrev pub browser_of : Option (Browser × Bool) → Option Browser
browser_of none = none
browser_of (some (b, done)) = some b

-- `mod_mpd_pl_clear(); mod_browser_add(); mod_mpd_play();`
abbrev pub played : Result → Result
played none = none
played (some (b, actions)) = some (b, mpd_clear ∷ (actions ++ mpd_play ∷ []))

-- What the browser needs: the conversion, the server, the directory of scripts and what it holds,
-- the setting `mod_browser_cdup`, the height of the display, and the path of the playlists.
pub record Setting : Type 0 where
  pub from_utf8 : Text → Text
  pub lsinfo : Text → List Entity
  pub exec_dir : Text
  pub read_dir : Text → Option (List DirEntry)
  pub cdup : Bool
  pub display_hgt : ℕ
  pub playlists : Text

module _ (set : Setting) where
  unfoldable pub activate : Browser → Result
  activate b =
      if b.active
      then some (removed b, browser_remove ∷ reset_timer ∷ [])
      else elim (mod_browser_open set.from_utf8 set.lsinfo b) [
        | none ↦ none
        | some b' ↦ some (b', reset_timer ∷ refresh_browser ∷ refresh ∷ reset_timer ∷ [])
      ]

  unfoldable pub cursor_command : Text → Browser → Result
  cursor_command rest b = elim (whole_rest rest) [
    | none ↦ some (b, [])
    | some c3 ↦ moved (mod_browser_cursor set.display_hgt c3 b) (refresh_browser ∷ [])
  ]

  -- The last of the commands that follow the word browser, with what is left behind them.
  unfoldable pub script_command : Text → Text → Browser → Result
  unfolding mod_browser_add
  script_command c2 rest b =
      if nocase_eq c2 (codes "play") && b.active
      then played (mod_browser_add b)
      else if nocase_eq c2 (codes "exec")
      then elim (whole_rest rest) [ none ↦ some (b, []) | some c3 ↦ some (b, execute c3 ∷ []) ]
      else if nocase_eq c2 (codes "djump")
      then elim (whole_rest rest) [
        | none ↦ some (b, [])
        | some c3 ↦
            if b.active
            then some (b, [])
            else some (b, send_message Msgtype.input (codes "djump " ++ c3) ∷ [])
      ]
      else some (b, [])

  -- The commands in the middle of the chain.
  unfoldable pub show_command : Text → Text → Browser → Result
  unfolding script_command mod_browser_add
  show_command c2 rest b =
      if nocase_eq c2 (codes "add") && b.active
      then mod_browser_add b
      else if nocase_eq c2 (codes "setpwd")
      then elim (whole_rest rest) [
        | none ↦ some (b, [])
        | some c3 ↦ some (shown_again b, reset_timer ∷ refresh_browser ∷ [])
      ]
      else if nocase_eq c2 (codes "clear")
      then some (b, [])
      else if nocase_eq c2 (codes "show")
      then some (shown_again b, reset_timer ∷ refresh_browser ∷ [])
      else script_command c2 rest b

  -- The chain of comparisons from its start.
  unfoldable pub browser_command : Text → Text → Browser → Result
  unfolding activate cursor_command show_command
  browser_command c2 rest b =
      if nocase_eq c2 (codes "activate")
      then activate b
      else if nocase_eq c2 (codes "deactivate")
      then some (removed b, browser_remove ∷ [])
      else if nocase_eq c2 (codes "playlistopen")
      then some (b, [])
      else if nocase_eq c2 (codes "cursor") && b.active
      then cursor_command rest b
      else if nocase_eq c2 (codes "back") && b.active
      then moved (browser_of (mod_browser_back set.from_utf8 set.lsinfo set.display_hgt b)) []
      else if nocase_eq c2 (codes "into") && b.active
      then moved
          (mod_browser_into set.from_utf8 set.lsinfo set.exec_dir
            (mod_browser_intodirscan set.read_dir set.cdup) b)
          []
      else show_command c2 rest b

  -- The command word, and the word behind it. A message without a second word is ignored before the
  -- first one is looked at.
  abbrev pub after_command : Start → Browser → Result
  after_command ignored b = some (b, [])
  after_command (command c1 rest) b = elim (strtok blanks rest) [
    | none ↦ some (b, [])
    | some (c2, rest') ↦ elim c1 [
      | none ↦ none
      | some c ↦ if nocase_eq c (codes "browser") then browser_command c2 rest' b else some (b, [])
    ]
  ]

  -- `browser list` asks for the path of the playlists.
  unfoldable pub browser_query : Text → Browser → Result
  browser_query msg b = elim (strtok blanks msg) [
    | none ↦ some (b, [])
    | some (c1, rest) ↦ elim (strtok blanks rest) [
      | none ↦ some (b, [])
      | some (c2, _) ↦
          if nocase_eq c1 (codes "browser") && nocase_eq c2 (codes "list")
          then some (b, send_message Msgtype.info set.playlists ∷ [])
          else some (b, [])
    ]
  ]

  unfoldable pub mod_browser_message : ℕ → Text → Browser → Result
  unfolding browser_command browser_query read_command
  mod_browser_message msgtype msg b =
      if msgtype == Msgtype.input
      then after_command (read_command b.active msg) b
      else if msgtype == Msgtype.query
      then browser_query msg b
      else some (b, [])
