-- ===== src/Recovery/Menu.antt =====
-- `interactive_menu`: the lines that the operator types decide what is run.
use xaac_thin_client_os.Base.{
  Bool, true, false, String, Option, none, some, List, [], ◌∷◌, str_eq, strip, if◌then◌else◌,
}
use xaac_thin_client_os.Machine.{M, failure, pure, raise, ◌>>=◌, ◌>>◌, when, run_checked}
use xaac_thin_client_os.Recovery.Runtime.{load_recovery_policy, require_recovery_mode}
use xaac_thin_client_os.Recovery.Actions.{
  rollback, recover_configuration, repair_system, set_network,
}
use xaac_thin_client_os.Recovery.Report.{status_report}

pub data Action : Type 0 where
  roll_back repair restore network_on network_off : Action

-- What a choice leads to: the report, an action behind a word to be typed, an action at once, a
-- command of systemctl that ends the menu, the end, or the menu again.
pub data Choice : Type 0 where
  report : Choice
  confirmed : String → Action → Choice
  at_once : Action → Choice
  power : String → Choice
  leave : Choice
  invalid : Choice

abbrev pub choice_of : String → Choice
choice_of s =
    if str_eq s "1"
    then report
    else if str_eq s "2"
    then confirmed "ROLLBACK" roll_back
    else if str_eq s "3"
    then confirmed "REPAIR" repair
    else if str_eq s "4"
    then confirmed "RESTORE CONFIG" restore
    else if str_eq s "5"
    then confirmed "NETWORK ON" network_on
    else if str_eq s "6"
    then at_once network_off
    else if str_eq s "7"
    then power "reboot"
    else if str_eq s "8"
    then power "poweroff"
    else if str_eq s "0"
    then leave
    else invalid

-- An action, whose result is printed.
unfoldable pub perform : Bool → Action → M (Unit {0})
perform available roll_back = do rollback available; pure tt
perform available repair = do repair_system; pure tt
perform available restore = do recover_configuration available; pure tt
perform available network_on = do set_network true; pure tt
perform available network_off = do set_network false; pure tt

unfoldable pub show_status : M (Unit {0})
show_status = do policy ← load_recovery_policy; status_report policy; pure tt

-- What a choice does; `again` is the menu behind it, with the word that is asked for.
unfoldable pub follow : Bool → (Option (String × Action) → M (Unit {0})) → Choice → M (Unit {0})
unfolding perform show_status
follow available again report = do show_status; again none
follow available again (confirmed word action) = again (some (word, action))
follow available again (at_once action) = do perform available action; again none
follow available again (power verb) = do run_checked ("/usr/bin/systemctl" ∷ verb ∷ []); pure tt
follow available again leave = pure tt
follow available again invalid = again none

-- The loop, with the word that is asked for. `input` raises where there are no lines left.
unfoldable pub menu : Bool → Option (String × Action) → List String → M (Unit {0})
unfolding follow
menu available asked [] = raise (failure "EOFError")
menu available (some (word, action)) (answer ∷ rest) = do
  when (str_eq (strip answer) word) (perform available action)
  menu available none rest
menu available none (line ∷ rest) =
    follow available (λ asked. menu available asked rest) (choice_of (strip line))

unfoldable pub interactive_menu : Bool → List String → M (Unit {0})
unfolding menu
interactive_menu available lines = do require_recovery_mode; menu available none lines
