-- ===== src/Session/Accepted.antt =====
-- What an accepted profile means for the supervisor.
use xaac_thin_client_os.Base.{◌≤◌, some, none, Option}
use xaac_thin_client_os.Session.Restarts.{Settings, Restarts}

abbrev from_option : Settings → Option Settings → Settings
from_option d none = d
from_option d (some c) = c

abbrev IsSafe : Settings → Type 0
IsSafe c = (c.initial_backoff ≤ c.max_backoff) × (c.max_restarts ≤ 20)
