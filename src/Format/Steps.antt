-- ===== src/Format/Steps.antt =====
-- The loop of src/util.c, one round at a time: its equations for proofs that keep it shut.
use audiobase.Common.{ℕ, suc, Bool, true, false, Option, none, some, ◌≡◌}
use audiobase.Text.{Text}
use audiobase.Format.Syntax.{append_to_string}
use audiobase.Format.Labels.{Label}
use audiobase.Format.Loop.{next, group, stop, format_round, format_loop}

-- The state of the loop after a bracket that returned `temp`.
abbrev pub after_group : Option Text → Option Text → Option Text
after_group ret none = ret
after_group ret (some temp) = append_to_string ret temp

abbrev pub found_after : Bool → Option Text → Bool
found_after found none = found
found_after found (some temp) = true

module _ (label : Text → ℕ → Label) (fuel : ℕ) (p : Text) (ret : Option Text) (found : Bool) where
  pub loop_next :
      (p' : Text) (ret' : Option Text) (found' : Bool)
      → format_round label p ret found ≡ next p' ret' found'
      → format_loop label (suc fuel) p ret found ≡ format_loop label fuel p' ret' found'
  unfolding format_loop
  loop_next p' ret' found' e = rw (format_loop, e)

  pub loop_stop :
      (ret' : Option Text) (last : Text)
      → format_round label p ret found ≡ stop ret' last
      → format_loop label (suc fuel) p ret found ≡ some (ret', last)
  unfolding format_loop
  loop_stop ret' last e = rw (format_loop, e)

  pub loop_group :
      (s p' : Text) (r : Option Text)
      → format_round label p ret found ≡ group s
      → format_loop label fuel s none false ≡ some (r, p')
      → format_loop label (suc fuel) p ret found
        ≡ format_loop label fuel p' (after_group ret r) (found_after found r)
  unfolding format_loop
  loop_group s p' none e e' = rw (format_loop, e, e')
  loop_group s p' (some temp) e e' = rw (format_loop, e, e')
