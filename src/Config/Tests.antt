-- ===== src/Config/Tests.antt =====
-- Tests of the configuration (src/ABaseconfig.c), and the theorems at concrete inputs.
use audiobase.Common.{
  [], ◌∷◌, ◌++◌, reverse, false, none, some, ◌≡◌, refl, arith, take, pos, negsuc,
}
use audiobase.Text.{codes, nocase_eq, to_lower, strtol_any, split_first}
use audiobase.Tools.{trim, readline}
use audiobase.Config.Entries.{
  Entry, Config, config_getstr, config_getnum, config_add, config_remove, smart_remove, config_free,
}
use audiobase.Config.Reader.{
  read_lines, read_entry, config_read, ConfigState, write_pairs, write_pair,
}
use audiobase.Config.File.{IsWritable, read-write}
use audiobase.Config.Generator.{Generator, simple_comment, config_value, player_default}
use audiobase.Config.Generated.{Choice, write_options, write_options-read}
use audiobase.Config.Stacks.{stacks, push, pop, top, is_stacked, empty, config_refines}

abbrev host : Entry
host = record { key = codes "mpd_host"; value = codes "localhost" }

abbrev port : Entry
port = record { key = codes "mpd_port"; value = codes "6600" }

abbrev sample : Config
sample = host ∷ port ∷ []

abbrev empty_state : ConfigState
empty_state = record { config_file = []; config_list = [] }

-- A comment, an empty line, blanks, two colons and a last line without an end, which is lost.
reads_file :
    read_lines 60 false [] (codes "# c\n\n  a : b:c \nnothing\nlast: 1")
    ≡ some (record { key = codes "a"; value = codes "b:c" } ∷ [])
unfolding read_lines readline read_entry trim split_first config_add
reads_file = refl

numbers :
    (config_getnum sample (codes "MPD_PORT") (pos 1) ≡ pos 6600)
    × (config_getnum sample (codes "none") (pos 1) ≡ pos 1)
    × (config_getnum (config_add sample (codes "x") (codes "-0x1F")) (codes "x") (pos 1)
        ≡ negsuc 30)
    × (config_getnum (config_add sample (codes "x") (codes "010")) (codes "x") (pos 1) ≡ pos 8)
unfolding config_getnum config_add nocase_eq to_lower strtol_any
numbers = (refl, refl, refl, refl)

no_file :
    config_read (λ _. none) false empty_state (codes "/x")
    ≡ (record empty_state { config_file = codes "/x" }, negsuc 0)
unfolding config_read
no_file = refl

host-IsWritable : IsWritable host
host-IsWritable = record {
  key_start = refl;
  key_trimmed = (refl, refl);
  key_plain = (refl, (refl, (refl, (refl, (refl, (refl, (refl, (refl, tt))))))));
  key_line = (refl, (refl, (refl, (refl, (refl, (refl, (refl, (refl, tt))))))));
  value_trimmed = (refl, refl);
  value_line = (refl, (refl, (refl, (refl, (refl, (refl, (refl, (refl, (refl, tt)))))))));
  short = omega arith;
}

port-IsWritable : IsWritable port
port-IsWritable = record {
  key_start = refl;
  key_trimmed = (refl, refl);
  key_plain = (refl, (refl, (refl, (refl, (refl, (refl, (refl, (refl, tt))))))));
  key_line = (refl, (refl, (refl, (refl, (refl, (refl, (refl, (refl, tt))))))));
  value_trimmed = (refl, refl);
  value_line = (refl, (refl, (refl, (refl, tt))));
  short = omega arith;
}

read-write_example :
    config_read (λ _. some (write_pairs sample)) false empty_state (codes "/etc/ab") ≡ (
      record { config_file = take 511 (codes "/etc/ab"); config_list = reverse sample ++ [] },
      pos 0,
    )
read-write_example =
    read-write (λ _. some (write_pairs sample)) empty_state (codes "/etc/ab") sample
      (host-IsWritable, (port-IsWritable, tt)) refl

config_refines_example :
    (config_getstr sample (codes "mpd_port") none ≡ top (stacks sample (codes "mpd_port")) none)
    × (stacks (config_add sample (codes "MPD_Port") (codes "1")) (codes "mpd_port")
        ≡ push (codes "MPD_Port") (codes "1") (stacks sample) (codes "mpd_port"))
    × (stacks (config_remove sample (codes "MPD_Port")).0 (codes "mpd_port")
        ≡ pop (codes "MPD_Port") (stacks sample) (codes "mpd_port"))
    × ((config_remove sample (codes "MPD_Port")).1 ≡ is_stacked (stacks sample (codes "MPD_Port")))
    × (stacks (smart_remove sample (codes "MPD_Port")) (codes "mpd_port")
        ≡ pop (codes "MPD_Port") (pop (codes "MPD_Port") (stacks sample)) (codes "mpd_port"))
    × (stacks (config_free sample) (codes "mpd_port") ≡ empty (codes "mpd_port"))
config_refines_example =
    config_refines sample (codes "MPD_Port") (codes "1") (codes "mpd_port") none

abbrev wanted_host : Choice
wanted_host = record { comment = codes "host"; name = codes "mpd_host"; default = codes "music" }

abbrev wanted_port : Choice
wanted_port = record { comment = codes "port"; name = codes "mpd_port"; default = codes "6600" }

abbrev start : Generator
start = record { conffile = []; config = host ∷ [] }

-- The text for one option.
writes_option :
    (write_options (wanted_port ∷ []) start).conffile ≡ codes "\n#\n# port\n#\nmpd_port: 6600\n"
unfolding simple_comment config_value config_getstr nocase_eq to_lower write_pair
writes_option = refl

-- The player that the source configuration names is not found.
forgets_player :
    (player_default (codes "mp3") (codes "a") (record start {
      config = record { key = codes "playtype_mp3"; value = codes "a" } ∷ [];
    })).config
    ≡ record { key = codes "playtype_mp3"; value = codes "a" } ∷ []
unfolding player_default config_getstr nocase_eq to_lower
forgets_player = refl

write_options-read_example :
    config_read
      (λ _. some (write_options (wanted_host ∷ wanted_port ∷ []) start).conffile)
      false
      empty_state
      (codes "/x")
    ≡ (
      record {
        config_file = take 511 (codes "/x");
        config_list = reverse (host ∷ port ∷ []) ++ [];
      },
      pos 0,
    )
unfolding config_getstr nocase_eq to_lower
write_options-read_example =
    write_options-read (λ _. some (write_options (wanted_host ∷ wanted_port ∷ []) start).conffile)
      empty_state (codes "/x") (host ∷ []) (wanted_host ∷ wanted_port ∷ []) ((refl, tt), (tt, tt))
      (
        ((refl, (refl, (refl, (refl, tt)))), omega arith, host-IsWritable),
        (((refl, (refl, (refl, (refl, tt)))), omega arith, port-IsWritable), tt),
      )
      refl
