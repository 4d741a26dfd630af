-- ===== src/Daemon/Order.antt =====
-- The messages that `main` of src/ABased.c sends before the main loop, and their order.
use audiobase.Common.{
  ℕ, zero, suc, ◌≤◌, [], ◌∷◌, ◌++◌, append_assoc, append-nil, List, Bool-cases, Option-cases,
  Option, none, some, ◌≡◌, refl, ◌∙◌, sym, ap, inl, inr, arith, ◌==◌, if◌then◌else◌, take,
  take_self, length, length-append, ltb,
}
use audiobase.Text.{Text, codes, snprintf}
use audiobase.Bus.{Message}
use audiobase.Bus.Msgtype
use audiobase.Config.{Config}
use audiobase.Daemon.Options.{Options, take_option, take_options}

abbrev pub welcome : Option Text → List Message
welcome none = []
welcome (some text) =
    record { msgtype = Msgtype.info; msg = snprintf 1023 (codes "welcome " ++ text) } ∷ []

-- The arguments of the options `-m`.
abbrev pub given : List (ℕ × Text) → List Text
given [] = []
given ((c, optarg) ∷ opts) = if c == b'm' then optarg ∷ given opts else given opts

take_option-messages :
    (c : ℕ) (optarg : Text) (o o' : Options)
    → take_option c optarg o ≡ some o'
    → o'.command_line_message ≡ (
        if c == b'm'
        then (if ltb (length o.command_line_message) 64
            then o.command_line_message ++ optarg ∷ []
            else o.command_line_message)
        else o.command_line_message)
unfolding take_option
take_option-messages c optarg o o' h = ground arith

take-append : (n : ℕ) (xs ys : List Text) → n ≤ length xs → take n (xs ++ ys) ≡ take n xs
take-append zero xs ys h = refl
take-append (suc n) [] ys h = absurd (omega arith)
take-append (suc n) (x ∷ xs) ys h = ap (λ l. x ∷ l) (take-append n xs ys (omega arith))

-- The list of commands after an option.
abbrev next_messages : ℕ → Text → List Text → List Text
next_messages c optarg ms =
    if c == b'm' then (if ltb (length ms) 64 then ms ++ optarg ∷ [] else ms) else ms

next_messages-take :
    (c : ℕ) (optarg : Text) (opts : List (ℕ × Text)) (ms : List Text)
    → length ms ≤ 64
    → (length (next_messages c optarg ms) ≤ 64)
      × (take 64 (next_messages c optarg ms ++ given opts)
          ≡ take 64 (ms ++ given ((c, optarg) ∷ opts)))
next_messages-take c optarg opts ms few = elim (Bool-cases (c == b'm')) [
  | inl message ↦ elim (Bool-cases (ltb (length ms) 64)) [
    | inl room ↦ (
      rw (message, room) (ground (arith, length-append ms (optarg ∷ []))),
      rw (message, room, append_assoc ms (optarg ∷ []) (given opts)),
    )
    | inr full ↦ (
      rw (message, full) few,
      rw (
        message,
        full,
        take-append 64 ms (given opts) (ground arith),
        take-append 64 ms (optarg ∷ given opts) (ground arith),
      ),
    )
  ]
  | inr other ↦ (rw other few, rw other)
]

-- If the options are accepted, the commands that are sent are the first 64 that `-m` gives, in their
-- order.
take_options-messages :
    (opts : List (ℕ × Text)) (o o' : Options)
    → length o.command_line_message ≤ 64
    → take_options opts o ≡ some o'
    → o'.command_line_message ≡ take 64 (o.command_line_message ++ given opts)
unfolding take_options
take_options-messages [] o o' few h =
    let same : o ≡ o' = cc in
    rw (← same, append-nil) (sym (take_self 64 o.command_line_message few))
take_options-messages ((c, optarg) ∷ opts) o o' few h =
    elim (Option-cases (take_option c optarg o)) [
      | inl refused ↦ cc (rw (refused, take_options) at h)
      | inr (o1, e) ↦
          let (few', same) = next_messages-take c optarg opts o.command_line_message few in
          let one = take_option-messages c optarg o o1 e in
          take_options-messages opts o1 o' (rw one few') (rw (e, take_options) at h)
          ∙ ap (λ l. take 64 (l ++ given opts)) one
          ∙ same
    ]
