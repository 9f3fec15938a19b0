-- ===== src/Start.antt =====
-- src/main.rs: `parse_args`, on the arguments of the process.
use ember.Prelude.{
  ℕ, ◌≤◌, ◌≡◌, refl, false, List, [], ◌∷◌, Option, none, some, if◌then◌else◌, All, Bool-cases, inl,
  inr, ap, sym,
}
use ember.Text.{Bytes, codes, str_eq, eq_of_str_eq}
use ember.Text.Decimal.{parse_unsigned, format_usize, max_u16}
use ember.Text.Decimal.RoundTrip.{parse_unsigned-format}

abbrev pub default_port : ℕ
default_port = 6379

-- `.parse().unwrap_or(DEFAULT_PORT)` of a `u16`
abbrev port_or : Option ℕ → ℕ
port_or none = default_port
port_or (some port) = port

-- The loop, from the argument `args[i]` on.
unfoldable pub parse_from : ℕ → List Bytes → ℕ
parse_from port [] = port
parse_from port (arg ∷ []) = port
parse_from port (arg ∷ val ∷ args) =
    let skipped = parse_from port (val ∷ args) in
    let taken = parse_from (port_or (parse_unsigned max_u16 val)) args in
    if str_eq arg (codes "--port") then taken else skipped

-- The first argument is the program's name.
unfoldable pub parse_args : List Bytes → ℕ
parse_args [] = default_port
parse_args (program ∷ args) = parse_from default_port args

-- A word of the command line that is not the option, or the option with a printed port or any other
-- word behind it.
pub data Given : Type 0 where
  word : Bytes → Given
  port : ℕ → Given
  option : Bytes → Given

-- What ends the command line: nothing more, or the option without a word behind it.
pub data Rest : Type 0 where
  nothing : Rest
  bare_option : Rest

unfoldable pub line : List Given → Rest → List Bytes
line [] nothing = []
line [] bare_option = codes "--port" ∷ []
line (word w ∷ gs) r = w ∷ line gs r
line (port n ∷ gs) r = codes "--port" ∷ format_usize n ∷ line gs r
line (option w ∷ gs) r = codes "--port" ∷ w ∷ line gs r

abbrev pub IsGiven : Given → Type 0
IsGiven (word w) = str_eq w (codes "--port") ≡ false
IsGiven (port n) = n ≤ max_u16
IsGiven (option w) = Unit

-- The last option that has a word behind it decides.
abbrev pub last_port : ℕ → List Given → ℕ
last_port p [] = p
last_port p (word w ∷ gs) = last_port p gs
last_port p (port n ∷ gs) = last_port n gs
last_port p (option w ∷ gs) = last_port (port_or (parse_unsigned max_u16 w)) gs

parse_from-skip :
    (p : ℕ) (w : Bytes) (args : List Bytes)
    → str_eq w (codes "--port") ≡ false
    → parse_from p (w ∷ args) ≡ parse_from p args
unfolding parse_from
parse_from-skip p w [] h = refl
parse_from-skip p w (v ∷ args) h = rw h

parse_from-line :
    (p : ℕ) (gs : List Given) (r : Rest)
    → All IsGiven gs
    → parse_from p (line gs r) ≡ last_port p gs
unfolding parse_from line str_eq
parse_from-line p [] nothing h = refl
parse_from-line p [] bare_option h = refl
parse_from-line p (word w ∷ gs) r (hw, h) =
    rw (parse_from-skip p w (line gs r) hw) (parse_from-line p gs r h)
parse_from-line p (port n ∷ gs) r (hn, h) =
    rw (parse_unsigned-format max_u16 n hn) (parse_from-line n gs r h)
parse_from-line p (option w ∷ gs) r (hw, h) =
    parse_from-line (port_or (parse_unsigned max_u16 w)) gs r h

-- How arguments are read: an option takes the word behind it, whatever that is.
unfoldable given : List Bytes → List Given × Rest
given [] = ([], nothing)
given (arg ∷ []) =
    if str_eq arg (codes "--port") then ([], bare_option) else (word arg ∷ [], nothing)
given (arg ∷ val ∷ args) =
    let skipped = given (val ∷ args) in
    let taken = given args in
    if str_eq arg (codes "--port")
    then (option val ∷ taken.0, taken.1)
    else (word arg ∷ skipped.0, skipped.1)

-- Every list of arguments is such a line.
given-lem :
    (args : List Bytes) → All IsGiven (given args).0 × (line (given args).0 (given args).1 ≡ args)
unfolding given line
given-lem [] = (tt, refl)
given-lem (arg ∷ []) = elim (Bool-cases (str_eq arg (codes "--port"))) [
  | inl h ↦ rw h (tt, ap (λ a. a ∷ []) (sym (eq_of_str_eq arg (codes "--port") h)))
  | inr h ↦ rw h ((h, tt), refl)
]
given-lem (arg ∷ val ∷ args) = elim (Bool-cases (str_eq arg (codes "--port"))) [
  | inl h ↦
      let (all, same) = given-lem args in
      rw h
        ((tt, all), rw same (ap (λ a. a ∷ val ∷ args) (sym (eq_of_str_eq arg (codes "--port") h))))
  | inr h ↦ let (all, same) = given-lem (val ∷ args) in rw h ((h, all), ap (λ l. arg ∷ l) same)
]

pub parse_args-line :
    (program : Bytes) (gs : List Given) (r : Rest)
    → All IsGiven gs
    → parse_args (program ∷ line gs r) ≡ last_port default_port gs
unfolding parse_args
parse_args-line program gs r h = parse_from-line default_port gs r h
