-- ===== src/Browser/Reload.antt =====
-- `mod_browser_reload` of src/mod_browser.c: the settings of the browser from the configuration.
use audiobase.Common.{
  ℕ, [], ◌∷◌, ◌++◌, Bool, false, not, ◌&&◌, Option, none, some, if◌then◌else◌, length, ltb, ◌==◌, ℤ,
  pos, ltb_ℤ,
}
use audiobase.Text.{Text, codes, nocase_eq}
use audiobase.State.{Browser}
use audiobase.Config.{Config, config_getstr, config_getnum}

-- The globals `mod_browser_…`.
pub record Settings : Type 0 where
  pub activate_first : Bool
  pub mask_audio : Text
  pub mask_list : Text
  pub mask_listlist : Text
  pub mask_exec : Text
  pub mask_hide : Text
  pub mask_sensitiveflag : ℕ
  pub pwddepth : ℤ
  pub cdup : Bool
  pub cdup_initial_updir : Bool
  pub root : Text
  pub exec : Text
  pub execmsg : Text
  pub list : Text
  pub path : Text

-- `config_getstr` with a default value.
abbrev pub text_or : Text → Option Text → Text
text_or default none = default
text_or default (some s) = s

abbrev pub get : Config → Text → Text → Text
get config key default = text_or default (config_getstr config key none)

abbrev pub is_yes : Config → Text → Text → Bool
is_yes config key default = nocase_eq (get config key default) (codes "yes")

-- Whether the last byte is a slash. For an empty text the byte before it is looked at, but each of
-- these tests also wants more than one byte, or has some.
unfoldable pub ends_in_slash : Text → Bool
ends_in_slash [] = false
ends_in_slash (b ∷ []) = b == b'/'
ends_in_slash (b ∷ c ∷ s) = ends_in_slash (c ∷ s)

-- `s[strlen(s)-1]=0`
unfoldable pub drop_last : Text → Text
drop_last [] = []
drop_last (b ∷ []) = []
drop_last (b ∷ c ∷ s) = b ∷ drop_last (c ∷ s)

-- A directory below another one.
unfoldable pub below : Text → Text → Text
unfolding ends_in_slash
below root sub = (if ends_in_slash root then root else root ++ codes "/") ++ sub

abbrev pub is_directory_text : Text → Bool
is_directory_text s = ends_in_slash s && ltb 1 (length s)

unfoldable pub without_slash : Text → Text
unfolding drop_last ends_in_slash
without_slash s = if is_directory_text s then drop_last s else s

-- Only absolute paths are allowed.
unfoldable pub absolute_root : Text → Text
absolute_root [] = codes "/"
absolute_root (b ∷ s) = if b == b'/' then b ∷ s else codes "/"

abbrev pub shown_depth : ℤ → ℤ
shown_depth n = if ltb_ℤ n (pos 1) then pos 1 else n

-- The home directory that was set before decides whether the last byte of the directory of the
-- playlists is dropped.
unfoldable pub mod_browser_reload : Config → Settings × Browser → Settings × Browser
unfolding below without_slash absolute_root ends_in_slash drop_last
mod_browser_reload config (old, b) =
    let activate_first = is_yes config (codes "browser_activate_first") (codes "yes") in
    let root = absolute_root (get config (codes "browser_root") (codes "/")) in
    let list = below root (get config (codes "browser_playlist") (codes "/")) in
    (
      record {
        activate_first = activate_first;
        mask_audio = get config (codes "browser_mask_audio") (codes "/*/*.[Mm][Pp]3");
        mask_list = get config (codes "browser_mask_list") (codes "*.[Mm]3[Uu]");
        mask_listlist = get config (codes "browser_mask_listlist") (codes "*.[Mm]3[Ll]");
        mask_exec = get config (codes "browser_mask_exec") (codes "*.[Ss][Hh]");
        mask_hide = get config (codes "browser_mask_hide") (codes "*");
        mask_sensitiveflag = 0;
        pwddepth = shown_depth (config_getnum config (codes "browser_pwddepth") (pos 2));
        cdup = is_yes config (codes "browser_cdup") (codes "no");
        cdup_initial_updir = is_yes config (codes "browser_cdup_initial_updir") (codes "no");
        root = root;
        exec =
            if nocase_eq (get config (codes "browser_exec") (codes "-")) (codes "-")
            then []
            else without_slash (below root (get config (codes "browser_exec") []));
        execmsg = get config (codes "browser_execmsg") (codes "/tmp/ABase.tmp.execmsg");
        list = if is_directory_text old.path then drop_last list else list;
        path = without_slash (below root (get config (codes "browser_home") (codes "/")));
      },
      record b { active = not activate_first },
    )
