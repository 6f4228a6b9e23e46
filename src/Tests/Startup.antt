-- ===== src/Tests/Startup.antt =====
-- Tests of internal/tsauth and internal/config.
use ts_restic_server.Common.{
  ◌≡◌, refl, inr, true, false, not, any, none, some, List, [], ◌∷◌, ◌++◌, if◌then◌else◌,
}
use ts_restic_server.Common.Text.{Bytes, codes, eqs}
use ts_restic_server.TsAuth.Wait.{Event, notified, needs_machine_auth, WaitOptions, wait_running}
use ts_restic_server.TsAuth.Ending.{is_end, is_waiting, wait_running-ends}
use ts_restic_server.Config.Discover.{
  FileKind, missing, regular, find_config_file, search_dirs, find_in,
}

abbrev waiting_for_machine : Event
waiting_for_machine =
    notified (record { err_message = none; browse_to_url = none; state = some needs_machine_auth })

abbrev login_wanted : Event
login_wanted =
    notified
      (record { err_message = none; browse_to_url = some (codes "https://login"); state = none })

abbrev events : List Event
events = waiting_for_machine ∷ waiting_for_machine ∷ login_wanted ∷ []

abbrev callbacks_set : WaitOptions
callbacks_set = record {
  allow_interactive = false;
  has_on_auth_url = true;
  has_on_needs_machine_auth = true;
}

wait_running-ends_example :
    is_waiting (wait_running callbacks_set false events).0 ≡ not (any (is_end callbacks_set) events)
wait_running-ends_example = wait_running-ends callbacks_set false events

-- One config file, in the second directory.
abbrev stat_one : Bytes → FileKind
stat_one p = if eqs p (codes "/etc/config.yml") then regular else missing

abbrev join_slash : Bytes → Bytes → Bytes
join_slash dir name = dir ++ codes "/" ++ name

found_in_etc :
    find_config_file stat_one join_slash [] (codes "." ∷ codes "/etc" ∷ [])
    ≡ inr (codes "/etc/config.yml")
unfolding find_config_file eqs search_dirs find_in
found_in_etc = refl
