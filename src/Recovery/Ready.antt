-- ===== src/Recovery/Ready.antt =====
-- What the state file of the recovery runtime says after an action that returns.
use xaac_thin_client_os.Base.{Bool, String, none, List, ◌≡◌, refl}
use xaac_thin_client_os.Json.{text}
use xaac_thin_client_os.Machine.{World, Event, M, wrote, Exc, atomic_json}
use xaac_thin_client_os.Machine.Keeps.{Keeps-pure}
use xaac_thin_client_os.Machine.Yields.{Yields-bind, Yields-try, Yields-raise, Yields-effect, After}
use xaac_thin_client_os.Machine.Status.{status_at, Ignores-status_at}
use xaac_thin_client_os.Machine.Returns.{Any, Returns, Returns-Any, Returns-keeps}
use xaac_thin_client_os.Recovery.Runtime.{recovery_state_path, write_action_state}
use xaac_thin_client_os.Recovery.Actions.{
  unsuccessful, successful, rollback, recover_configuration, finish_repair, repair_system,
  set_network,
}
use xaac_thin_client_os.Recovery.Quiet.{Keeps-recovery_audit}

abbrev pub IsReady : List Event → Type 0
IsReady t = status_at recovery_state_path t ≡ text "ready"

write_action_state-IsReady :
    (action : String) → Returns Any (write_action_state action none) IsReady
unfolding write_action_state atomic_json
write_action_state-IsReady action = Yields-bind _ _ (Returns-Any _) (λ there.
    Yields-bind _ _ (Returns-Any _) (λ linked. Yields-bind _ _ (Returns-Any _) (λ previous.
      Yields-bind _ _ (Returns-Any _) (λ now. Yields-bind _ _ (Returns-Any _) (λ count.
        Yields-bind _ _ (Returns-Any _) (λ unsafe.
          Yields-bind _ _ (Returns-Any _)
            (λ _. Yields-effect (wrote recovery_state_path _) _ (λ t h. refl))))))))

successful-IsReady :
    {A : Type 0} (action event : String) (a : A) → Returns Any (successful action event a) IsReady
unfolding successful
successful-IsReady action event a = Yields-bind _ _ (write_action_state-IsReady action) (λ _.
    Yields-bind _ _
      (Returns-keeps _ (
        Keeps-recovery_audit (Ignores-status_at recovery_state_path (text "ready")) (λ s. refl)
          event))
      (λ _. Returns-keeps _ (Keeps-pure a)))

unsuccessful-raises :
    {A : Type 0} (action event : String) (e : Exc)
    → Returns Any (unsuccessful {A = A} action event e) IsReady
unfolding unsuccessful
unsuccessful-raises action event e =
    Yields-bind _ _ (Returns-Any _) (λ _. Yields-bind _ _ (Returns-Any _) (λ _. Yields-raise _))

finish_repair-IsReady : (steps : List String) → Returns Any (finish_repair steps) IsReady
unfolding finish_repair
finish_repair-IsReady steps = Yields-bind _ _ (Returns-Any _) (λ now. successful-IsReady _ _ _)

rollback-Returns : (available : Bool) → Returns Any (rollback available) IsReady
unfolding rollback
rollback-Returns available = Yields-bind _ _ (Returns-Any _) (λ _.
    Yields-bind _ _ (Returns-Any _) (λ _.
      Yields-bind _ _ (Returns-Any _)
        (λ _. Yields-try _ _ _ (Returns-Any _) (successful-IsReady _ _) (unsuccessful-raises _ _))))

recover_configuration-Returns :
    (available : Bool) → Returns Any (recover_configuration available) IsReady
unfolding recover_configuration
recover_configuration-Returns available = Yields-bind _ _ (Returns-Any _) (λ _.
    Yields-bind _ _ (Returns-Any _) (λ _.
      Yields-bind _ _ (Returns-Any _)
        (λ _. Yields-try _ _ _ (Returns-Any _) (successful-IsReady _ _) (unsuccessful-raises _ _))))

repair_system-Returns : Returns Any repair_system IsReady
unfolding repair_system
repair_system-Returns = Yields-bind _ _ (Returns-Any _) (λ _.
    Yields-bind _ _ (Returns-Any _) (λ policy.
      Yields-bind _ _ (Returns-Any _)
        (λ _. Yields-try _ _ _ (Returns-Any _) finish_repair-IsReady (unsuccessful-raises _ _))))

set_network-Returns : (enabled : Bool) → Returns Any (set_network enabled) IsReady
unfolding set_network
set_network-Returns enabled = Yields-bind _ _ (Returns-Any _) (λ _.
    Yields-bind _ _ (Returns-Any _) (λ policy. Yields-bind _ _ (Returns-Any _) (λ value.
      Yields-bind _ _ (Returns-Any _) (λ unit. Yields-bind _ _ (Returns-Any _) (λ _.
        Yields-try _ _ _ (Returns-Any _) (λ _. successful-IsReady _ _ _)
          (unsuccessful-raises _ _))))))

abbrev pub ReadyWhereReturned : {A : Type 0} → M A → World → Type 0
ReadyWhereReturned m w = After IsReady Any (m w)

-- A rollback, a restore of the configuration, a repair or a change of the network that returns has
-- left the status `ready` in the state file of the recovery.
pub recovery_actions-IsReady :
    (available enabled : Bool) (w : World)
    → ReadyWhereReturned (rollback available) w
      × ReadyWhereReturned (recover_configuration available) w
      × ReadyWhereReturned repair_system w
      × ReadyWhereReturned (set_network enabled) w
recovery_actions-IsReady available enabled w = (
  (rollback-Returns available).at w tt,
  (recover_configuration-Returns available).at w tt,
  repair_system-Returns.at w tt,
  (set_network-Returns enabled).at w tt,
)
