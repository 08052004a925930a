-- ===== src/Recovery/Refuses.antt =====
-- The actions that want the recovery mode, on a machine that was booted in another way.
use xaac_thin_client_os.Base.{Bool, true, false, String, List, ◌≡◌, refl, str_eq, if◌then◌else◌}
use xaac_thin_client_os.Machine.{
  World, M, Result, ok, err, Exc, runtime_error, failure, pure, raise, ◌>>=◌,
}
use xaac_thin_client_os.Machine.Ends.{Stays, stays_rules, Stays-raise, Stays-pure}
use xaac_thin_client_os.Recovery.Runtime.{in_recovery_mode, require_recovery_mode, unread}
use xaac_thin_client_os.Recovery.Actions.{recover_configuration, repair_system, set_network}
use xaac_thin_client_os.Recovery.Menu.{interactive_menu}

-- The run raises the runtime's own exception and leaves the machine as it was: no command was run
-- and nothing was written.
abbrev pub Refuses : {A : Type 0} → M A → World → Type 0
Refuses m w = (why : String) × (m w ≡ (err (runtime_error why), w))

module _ {P : World → Type 0} where
  Stays-either : (b : Bool) (e : Exc) → Stays P (if b then pure false else raise e)
  Stays-either true e = Stays-pure false
  Stays-either false e = Stays-raise e

  Stays-unread : (e : Exc) → Stays P (unread e)
  unfolding unread
  Stays-unread (runtime_error s) = Stays-raise _
  Stays-unread (failure s) = Stays-either (str_eq s "OSError") (failure s)

  Stays-in_recovery_mode : Stays P in_recovery_mode
  unfolding in_recovery_mode
  Stays-in_recovery_mode = search (stays_rules, Stays-unread)

both :
    {A : Type 0} (r : Result A × World) (x : Result A) (w : World) → r.0 ≡ x → r.1 ≡ w → r ≡ (x, w)
both (y, v) x w e h = cc

module _ {A B : Type 0} where
  goes_on : (m : M A) (f : A → M B) (w : World) (a : A) → m w ≡ (ok a, w) → (m >>= f) w ≡ f a w
  unfolding ◌>>=◌
  goes_on m f w a e = rw (e)

  stops : (m : M A) (f : A → M B) (w : World) → Refuses m w → Refuses (m >>= f) w
  unfolding ◌>>=◌ raise
  stops m f w (why, e) = (why, rw (e))

require_recovery_mode-Refuses :
    (w : World) → (in_recovery_mode w).0 ≡ ok false → Refuses require_recovery_mode w
unfolding require_recovery_mode raise
require_recovery_mode-Refuses w e = (
  "Aquesta operació només està permesa després d'arrancar des de GRUB",
  goes_on in_recovery_mode _ w false (
      both (in_recovery_mode w) (ok false) w e
        ((Stays-in_recovery_mode {P = λ v. v ≡ w}).at w refl)),
)

-- On a machine that was not booted into the recovery mode, the restore of the configuration, the
-- repair, the change of the network and the menu raise, and leave the machine as it was.
pub recovery_actions-Refuse :
    (available enabled : Bool) (lines : List String) (w : World)
    → (in_recovery_mode w).0 ≡ ok false
    → Refuses (recover_configuration available) w
      × Refuses repair_system w
      × Refuses (set_network enabled) w
      × Refuses (interactive_menu available lines) w
unfolding recover_configuration repair_system set_network interactive_menu
recovery_actions-Refuse available enabled lines w e =
    let h = require_recovery_mode-Refuses w e in
    (
      stops require_recovery_mode _ w h,
      stops require_recovery_mode _ w h,
      stops require_recovery_mode _ w h,
      stops require_recovery_mode _ w h,
    )
