-- ===== src/Tests/Start.antt =====
-- Command lines at concrete inputs.
use ember.Prelude.{◌≡◌, [], ◌∷◌, List}
use ember.Text.{codes}
use ember.Text.Decimal.{parse_unsigned}
use ember.Start.{parse_args, word, port, option, line, nothing, Given, parse_args-line}

-- ember -v --port 7000 --port
abbrev given_twice : List Given
given_twice = word (codes "-v") ∷ port 7000 ∷ []

-- A port may be written with a sign and with zeros.
signed_port : parse_args (codes "ember" ∷ line (option (codes "+080") ∷ []) nothing) ≡ 80
unfolding parse_unsigned
signed_port = parse_args-line (codes "ember") (option (codes "+080") ∷ []) nothing (tt, tt)
