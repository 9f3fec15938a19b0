-- ===== src/Tests/Command.antt =====
-- Commands at concrete inputs.
use ember.Prelude.{
  ◌+◌, ◌*◌, ◌-◌, ◌^◌, ◌<◌, ◌≡◌, ◌↔◌, refl, true, false, [], ◌∷◌, arith, some, ok, panic,
}
use ember.Prelude.Int.{pos, negsuc}
use ember.Text.{codes, str_eq}
use ember.Text.Ascii.{ascii_upper, to_ascii_uppercase}
use ember.Resp.Types.{bulk_string, integer, array, cons, from_list}
use ember.Command.{set, extract_command}
use ember.Command.RoundTrip.{
  ask_set_ex, ask_set_px, name, words, meaning, IsAskable, call, after_millis, seconds,
  extract_command-call,
}
use ember.Command.Panic.{needed, extract_command_panics}

-- SET a 1 ex 3, at the time 7
extract_command-call_example :
    extract_command true 7 (call (codes "Set") (words (ask_set_ex (codes "a") (codes "1") (pos 3))))
    ≡ ok (set (codes "a") (codes "1") (some 3_000_000_007))
unfolding IsAskable seconds meaning after_millis name to_ascii_uppercase ascii_upper
extract_command-call_example =
    extract_command-call true 7 (codes "Set") (ask_set_ex (codes "a") (codes "1") (pos 3))
      (omega arith) refl

-- SET a 1 ex 3000000 overflows: it panics, or puts the expiration far in the future.
set_ex_overflow :
    extract_command true 7
      (call (codes "SET") (words (ask_set_ex (codes "a") (codes "1") (pos 3_000_000))))
    ≡ panic
unfolding seconds meaning name to_ascii_uppercase ascii_upper IsAskable
set_ex_overflow =
    extract_command-call true 7 (codes "SET") (ask_set_ex (codes "a") (codes "1") (pos 3_000_000))
      (omega arith) refl

set_ex_wrapped :
    extract_command false 7
      (call (codes "SET") (words (ask_set_ex (codes "a") (codes "1") (pos 3_000_000))))
    ≡ ok (set (codes "a") (codes "1") (some (7 + (2 ^ 64 - 1_294_967_296) * 1_000_000)))
unfolding seconds meaning after_millis name to_ascii_uppercase ascii_upper IsAskable
set_ex_wrapped =
    extract_command-call false 7 (codes "SET") (ask_set_ex (codes "a") (codes "1") (pos 3_000_000))
      (omega arith) refl

-- A negative time is far in the future, not in the past.
set_px_negative :
    extract_command true 7
      (call (codes "SET") (words (ask_set_px (codes "a") (codes "1") (negsuc 0))))
    ≡ ok (set (codes "a") (codes "1") (some (7 + (2 ^ 64 - 1) * 1_000_000)))
unfolding IsAskable meaning after_millis name to_ascii_uppercase ascii_upper
set_px_negative =
    extract_command-call true 7 (codes "SET") (ask_set_px (codes "a") (codes "1") (negsuc 0))
      (omega arith) refl

extract_command_panics_example :
    (extract_command false 7
        (array (cons (bulk_string (codes "expire")) (from_list (integer (pos 1) ∷ []))))
      ≡ panic)
    ↔ (1 < 2)
unfolding needed to_ascii_uppercase ascii_upper str_eq
extract_command_panics_example = extract_command_panics 7 (codes "expire") (integer (pos 1) ∷ [])
