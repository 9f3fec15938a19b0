-- ===== src/Text/Utf8/Lossy.antt =====
-- `from_utf8_lossy` leaves valid UTF-8 as it is.
use ember.Prelude.{ℕ, ◌≡◌, refl, sym, ◌∙◌, List, [], ◌∷◌, ◌++◌, append_assoc, Option, none, some}
use ember.Text.Utf8.{
  Utf8State, start, tail1, tail2, tail3, after_e0, after_ed, after_f0, after_f4, utf8_step,
  utf8_run, IsUtf8, lossy_step, lossy, from_utf8_lossy,
}

-- Nothing is pending at the start of a character.
abbrev IsPending : Utf8State → List ℕ → Type 0
IsPending start pending = pending ≡ []
IsPending _ pending = Unit

-- `utf8_run` behind a step
abbrev run_from : Option Utf8State → List ℕ → Option Utf8State
run_from none s = none
run_from (some state) s = utf8_run state s

abbrev push : List ℕ → List ℕ × Utf8State × List ℕ → List ℕ
push s (written, state, pending) = written ++ lossy state pending s

lossy_step_lem :
    (state : Utf8State) (pending : List ℕ) (b : ℕ) (s : List ℕ) (next : Option Utf8State)
    → ((t : Utf8State) (p : List ℕ)
        → utf8_run t s ≡ some start
        → IsPending t p
        → lossy t p s ≡ p ++ s)
    → run_from next s ≡ some start
    → push s (lossy_step state pending b next) ≡ pending ++ b ∷ s
unfolding lossy_step
lossy_step_lem state pending b s none ih h = cc
lossy_step_lem state pending b s (some start) ih h =
    rw (ih start [] h refl, append_assoc pending (b ∷ []) s)
lossy_step_lem state pending b s (some tail1) ih h =
    rw (ih tail1 (pending ++ b ∷ []) h tt, append_assoc pending (b ∷ []) s)
lossy_step_lem state pending b s (some tail2) ih h =
    rw (ih tail2 (pending ++ b ∷ []) h tt, append_assoc pending (b ∷ []) s)
lossy_step_lem state pending b s (some tail3) ih h =
    rw (ih tail3 (pending ++ b ∷ []) h tt, append_assoc pending (b ∷ []) s)
lossy_step_lem state pending b s (some after_e0) ih h =
    rw (ih after_e0 (pending ++ b ∷ []) h tt, append_assoc pending (b ∷ []) s)
lossy_step_lem state pending b s (some after_ed) ih h =
    rw (ih after_ed (pending ++ b ∷ []) h tt, append_assoc pending (b ∷ []) s)
lossy_step_lem state pending b s (some after_f0) ih h =
    rw (ih after_f0 (pending ++ b ∷ []) h tt, append_assoc pending (b ∷ []) s)
lossy_step_lem state pending b s (some after_f4) ih h =
    rw (ih after_f4 (pending ++ b ∷ []) h tt, append_assoc pending (b ∷ []) s)

run_elim :
    (next : Option Utf8State) (s : List ℕ)
    → ◌≡◌ {A = Option Utf8State}
        (elim next [ none ↦ none | some state ↦ utf8_run state s ])
        (run_from next s)
run_elim none s = refl
run_elim (some state) s = refl

utf8_run-cons :
    (state : Utf8State) (b : ℕ) (s : List ℕ)
    → utf8_run state (b ∷ s) ≡ run_from (utf8_step state b) s
unfolding utf8_run
utf8_run-cons state b s = run_elim (utf8_step state b) s

lossy_lem :
    (s : List ℕ) (state : Utf8State) (pending : List ℕ)
    → utf8_run state s ≡ some start
    → IsPending state pending
    → lossy state pending s ≡ pending ++ s
unfolding lossy utf8_run
lossy_lem [] start pending h p = rw p
lossy_lem [] _ pending h p = absurd cc
lossy_lem (b ∷ s) state pending h p =
    lossy_step_lem state pending b s (utf8_step state b) (λ t q e r. lossy_lem s t q e r)
      (sym (utf8_run-cons state b s) ∙ h)

pub from_utf8_lossy-IsUtf8 : (s : List ℕ) → IsUtf8 s → from_utf8_lossy s ≡ s
unfolding from_utf8_lossy
from_utf8_lossy-IsUtf8 s h = lossy_lem s start [] h refl
