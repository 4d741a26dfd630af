-- ===== src/Lib.antt =====
-- Verification library of audiobase, a daemon that controls a music player by remote control and
-- shows it on a text display.
--
-- The program. A core (src/ABasemod.c) keeps a list of modules, a queue of messages between them
-- and the answers to queries. A module has functions that the core calls: on a message, at
-- regular times, on a reload and at the end. The configuration (src/ABaseconfig.c) is a list of
-- keys and values that is read from a file by the line reader of src/ABasetools.c;
-- src/ABaseconf.c writes such a file. The browser (src/mod_browser.c) goes through the
-- directories of the music database, and the display module (src/mod_lcdproc.c) shows it, or the
-- song that is played; what a song looks like is given by a format string (src/util.c). The main
-- program (src/ABased.c) reads the command line, and its loop waits for input and signals and
-- has the core do its work. Commands come from the keys of a remote control (src/mod_lirc.c).
-- Commands to the player go to its server through src/mod_mpd.c.
--
-- Which file models which part:
-- - Common: names of the library, Boolean tests, lists, and the signed int of C as an unbounded
--   integer.
-- - Text: strings as lists of bytes without the terminating zero, and the functions of the C
--   library on them.
-- - Tools: src/ABasetools.c. `readline`, `freadtrimedline` and `trim` keep their names;
--   `read_loop` and `fread_loop` are the loops, and `Line` is what they leave in the buffer with
--   their result. A descriptor is the list of bytes that it still yields. `skip_answers` is the
--   loop of sendtextWait that waits for an answer.
-- - Config: src/ABaseconfig.c, and the output functions of src/ABaseconf.c, whose state, the
--   text written and the source configuration, is `Generator`. `ConfigState` holds the globals
--   config_file and config_list. Stacks has the specification of the list of entries.
-- - CharConv: src/charConv.c. `CharConv` holds the charsets of the open conversion and of the
--   locale, and `Iconv` is what the system offers.
-- - State: the records of src/globalDef.h.
-- - Format: src/util.c. `song_to_formatted_string` and `info_to_formatted_string` are
--   songToFormatedString and infoToFormatedString; they share their loop, `format_loop`, whose
--   round is `format_round`, and differ in the labels, `song_label` and `info_label`.
-- - Bus: src/ABasemod.c. `Core` holds the globals mod_list, mod_msgs and answer_head. The
--   functions of a module are programs (`Handler`) over what the core offers: to send a message,
--   to pose a query and to read its answers. `drain` is the loop of mod_update over the queue,
--   and `fifo` (Order) the queue that it is compared with.
-- - Mpd: src/mod_mpd.c. Player has the state of the player and how it is read; Jump has the
--   commands jump and djump; Message has mod_mpd_message, and what mod_sendmsgf of
--   src/ABasemod.c makes of a message that is its format. What is sent to the server and to the
--   queue of messages is a list in the result, and the server's status is a function of what was
--   sent.
-- - Display: src/mod_lcdproc.c. `Lcd` (Globals) holds its globals, the player's state and the
--   browser that it shows, and what it has sent, as a list of `Command`. Widgets has the
--   functions that set one widget; Time the line with the time; Menu the lines of the browser
--   (`show_rows` is the loop of mod_lcdproc_refresh_browser, `row` its body up to the text of a
--   line); Status the line with the position and the bit rate; Draw mod_lcdproc_refresh; Connect
--   the connection and the settings; Clock the clock; Poll what the display's server says;
--   Events mod_lcdproc_message; Update mod_lcdproc_update. A result `none` means that the code
--   writes outside of its buffers or reads a null pointer.
-- - Remote: src/mod_lirc.c. `Lirc` holds its globals, and `LircClient` and `NextCode` are what
--   lirc_client gives.
-- - Daemon: src/ABased.c. Options has the command line, Startup the messages at the start, Loop
--   the signal handler, `loop` and the main loop. A `Turn` is one `select` with the signals that
--   come until it returns.
-- - Commands: the first word of a message and the conditions before it, which src/mod_browser.c
--   and src/mod_mpd.c read in the same way.
-- - Browser: src/mod_browser.c. Cursor has mod_browser_cursor, with `new_position` and
--   `first_shown` as its two halves; Directory has mod_browser_get_mpddir (its loop is
--   `read_entities`, its end `store_listing`), mod_browser_back, mod_browser_into and
--   mod_browser_intodirscan; Message has mod_browser_message; Script has mod_browser_execute and
--   what waits for the script; Reload has mod_browser_reload, with the globals that it sets as
--   `Settings`. What the browser has the display and the server do is a list of actions in the
--   result. A result `none` means that the code reads a null pointer or outside of the allocated
--   entries.
--
-- Arguments of the model: for the other modules the conversion fromUtf8 of src/charConv.c is any
-- function that returns; iconv of the system is a function from an input and the room for the
-- output, without states between characters; the file system gives the bytes of a file that can
-- be opened; the player's server (libmpdclient) gives the entities that it lists for a path, and
-- its statistics; the date and time as texts, and the results of connect, select and getopt, the
-- numbers that fork gives, the deaths of children and the message file of a script are arguments
-- as well. `qsort` of the C library is a stable sort by insertion.
--
-- Loops on fuel. The loop over the lines of a file gets one round more than the file has bytes,
-- and the loop of a format one round more than the format has, which is enough. `drain` and
-- `mod_query` take the number of rounds and the depth of nesting as arguments, since modules may
-- send messages for ever. The loop of a conversion gets a round more than there are bytes, which
-- is enough. `skip_answers` gets two rounds more than there are bytes. The words of a list of
-- keys, of a greeting and of commands get a round for each byte, since each word takes one. The
-- main loop takes its turns and the number of its rounds as arguments.
--
-- Bounds. The int of C is unbounded here. The length of the buffer of `readline` is an argument,
-- and the index of the terminating zero is part of the model; so are the buffers in which
-- src/mod_lcdproc.c and src/charConv.c put their texts together, where they can be exceeded, and
-- the copy of a message in src/mod_mpd.c; other fixed buffers (names of 128 bytes and the like)
-- are not. Allocation succeeds.
--
-- Not modelled: input and output as such, logging, the fork of the daemon, and the copies of
-- libmpdclient and lirc_client.
pub mod Common
pub mod Text
pub mod Tools
pub mod CharConv
pub mod Config
pub mod State
pub mod Format
pub mod Bus
pub mod Mpd
pub mod Commands
pub mod Browser
pub mod Remote
pub mod Display
pub mod Daemon
