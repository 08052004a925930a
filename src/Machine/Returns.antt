-- ===== src/Machine/Returns.antt =====
-- What holds where a run returns, whatever it does where it raises.
use xaac_thin_client_os.Base.{Bool, List, ◌≡◌}
use xaac_thin_client_os.Machine.{World, Event, M, Result, ok, err}
use xaac_thin_client_os.Machine.Keeps.{Keeps}
use xaac_thin_client_os.Machine.Quiet.{Ignores}
use xaac_thin_client_os.Machine.Yields.{Yields, After, Yields-weaken, Yields-keeps}

-- Nothing is known.
abbrev pub Any : List Event → Type 0
Any t = Unit

pub Ignores-Any : {quiet : Event → Bool} → Ignores quiet Any
Ignores-Any = record { past = λ e q t h. tt }

pub Keeps-Any : {A : Type 0} (m : M A) → Keeps Any m
Keeps-Any m = record { at = λ w h. tt }

abbrev pub Returns : {A : Type 0} → (List Event → Type 0) → M A → (List Event → Type 0) → Type 0
Returns P m Q = Yields P m Q Any

pub Returns-keeps : {A : Type 0} {P : List Event → Type 0} (m : M A) → Keeps P m → Returns P m P
Returns-keeps {P = P} m k =
    Yields-weaken {P' = P} m (λ t h. h) (λ t h. h) (λ t h. tt) (Yields-keeps m k)

pub Returns-Any : {A : Type 0} (m : M A) → Returns Any m Any
Returns-Any m = Yields-keeps m (Keeps-Any m)

pub after-returns :
    {A : Type 0} (Q : List Event → Type 0) (r : Result A × World) (a : A)
    → After Q Any r
    → r.0 ≡ ok a
    → Q r.1.trace
after-returns Q (ok b, w) a h e = h
after-returns Q (err x, w) a h e = cc
