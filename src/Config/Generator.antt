-- ===== src/Config/Generator.antt =====
-- The output functions of src/ABaseconf.c, which writes a configuration file from the options of a
-- source configuration.
use audiobase.Common.{[], ◌∷◌, ◌++◌, Option, none, some, if◌then◌else◌}
use audiobase.Text.{Text, codes, text_eq}
use audiobase.Config.Entries.{Config, config_getstr, smart_remove}
use audiobase.Config.Reader.{write_pair}

-- What was written to `conffile`, and the source configuration.
pub record Generator : Type 0 where
  pub conffile : Text
  pub config : Config

unfoldable pub confwrite : Text → Generator → Generator
confwrite s g = record g { conffile = g.conffile ++ (s ++ 10 ∷ []) }

unfoldable pub line_hash : Generator → Generator
line_hash g =
    confwrite (codes "##########################################################################") g

unfoldable pub line_dash : Generator → Generator
line_dash g =
    confwrite (codes "##----------------------------------------------------------------------##") g

unfoldable pub simple_comment : Text → Generator → Generator
unfolding confwrite
simple_comment s g =
    confwrite (codes "#") (confwrite (codes "# " ++ s) (confwrite (codes "#") (confwrite [] g)))

abbrev pub value_or : Text → Option Text → Text
value_or value none = value
value_or value (some s) = s

unfoldable pub config_value : Text → Text → Generator → Generator
config_value name value g = record {
  conffile = g.conffile ++ write_pair name (value_or value (config_getstr g.config name none));
  config = smart_remove g.config name;
}

-- The value that is looked up is that of the key `tmp`.
unfoldable pub player_default : Text → Text → Generator → Generator
unfolding simple_comment config_value
player_default type player g =
    let name = codes "playtype_" ++ type in
    let asked =
      simple_comment
        (codes "Should " ++ player ++ codes " be the default player for " ++ type ++ codes " files")
        g in
    let hint = simple_comment (name ++ codes ": " ++ player) asked in
    elim (config_getstr g.config (codes "tmp") none) [
      | none ↦ hint
      | some tmp2 ↦ if text_eq tmp2 player then config_value name player asked else hint
    ]

unfoldable pub module_header : Text → Text → Generator → Generator
unfolding confwrite line_dash
module_header name description g = confwrite (codes "##") (
    confwrite
      (codes "## configuration options for " ++ name ++ codes " (" ++ description ++ codes ")")
      (confwrite (codes "##") (line_dash (confwrite [] g))))
