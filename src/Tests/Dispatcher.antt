-- ===== src/Tests/Dispatcher.antt =====
-- Sessions at concrete inputs, over association lists.
use ember.Prelude.{ℕ, ◌≡◌, ◌≢◌, refl, true, List, [], ◌∷◌, ◌++◌, map, none, ok, err, out_of_fuel}
use ember.Text.{Bytes, codes, str_eq}
use ember.Resp.Types.{RespType, simple_string, bulk_string, array, from_list}
use ember.Database.Map.{assoc_map, lookup, put, without}
use ember.Database.Object as Object
use ember.Database.Core.{Db, Instant, new_in_memory}
use ember.Database.Core as Core
use ember.Command.{Command, set, get, rpush, exec, discard}
use ember.Dispatcher.{Session, new_client, simple, execute_command, dispatch}
use ember.Dispatcher.Queue.{IsValid, dispatch_settles}
use ember.Dispatcher.Replay.{with_client, queueing}
use ember.Dispatcher.Transaction.{send_all, clock_after, queued, exec_lem, exec_failed, discard_lem}

abbrev session : Session assoc_map
session = record {
  client = new_client;
  db = record { values = []; expirations = [] };
  snapshots = [];
}

abbrev clock : ℕ → Instant
clock i = i

session-IsValid : IsValid assoc_map session
session-IsValid = record { plain = tt; idle = λ _. refl }

dispatch_settles_example :
    ((dispatch assoc_map true clock (get (codes "a")) session).0 ≢ out_of_fuel)
    × IsValid assoc_map (dispatch assoc_map true clock (get (codes "a")) session).1
dispatch_settles_example =
    dispatch_settles assoc_map true clock (get (codes "a")) session session-IsValid

abbrev commands : List Command
commands = set (codes "a") (codes "1") none ∷ get (codes "a") ∷ []

abbrev after_set : Session assoc_map
after_set = record session {
  db = record { values = (codes "a", Object.string (codes "1")) ∷ []; expirations = [] };
}

abbrev replies : List RespType
replies = simple_string (codes "Ok") ∷ bulk_string (codes "1") ∷ []

commands_alone : send_all assoc_map true clock commands session ≡ (map ok replies, after_set)
unfolding send_all dispatch execute_command Core.set Core.get Core.lazily_expired lookup put without
    str_eq
commands_alone = refl

exec_lem_example :
    let (rs, s) = queued assoc_map true clock commands session in
    (rs ≡ map (λ _. simple (codes "QUEUED")) commands)
    × (dispatch assoc_map true clock exec s ≡ (ok (array (from_list replies)), after_set))
exec_lem_example =
    exec_lem assoc_map true clock clock commands session after_set replies (tt, (tt, tt))
      commands_alone

-- a push onto a string fails
abbrev failing_commands : List Command
failing_commands =
    commands ++ rpush (codes "a") (codes "2" ∷ []) ∷ set (codes "b") (codes "3") none ∷ []

abbrev why : Bytes
why = codes "Failed to execute command. E: Wrong data type. Expected List, got String."

push_fails :
    dispatch assoc_map true
      (clock_after commands clock)
      (rpush (codes "a") (codes "2" ∷ []))
      after_set
    ≡ (err why, after_set)
unfolding dispatch execute_command Core.rpush lookup str_eq
push_fails = refl

exec_failed_example :
    dispatch assoc_map true clock exec (queued assoc_map true clock failing_commands session).1 ≡ (
      err (codes "Failed to execute queued commands. E: " ++ why),
      with_client assoc_map (queueing failing_commands) after_set,
    )
exec_failed_example =
    exec_failed assoc_map true clock clock commands (rpush (codes "a") (codes "2" ∷ []))
      (set (codes "b") (codes "3") none ∷ []) session after_set after_set replies why
      (tt, (tt, (tt, (tt, tt)))) commands_alone push_fails

discard_lem_example :
    dispatch assoc_map true clock discard (queued assoc_map true clock commands session).1
    ≡ (simple (codes "Ok"), session)
discard_lem_example = discard_lem assoc_map true clock commands session (tt, (tt, tt))
