-- ===== src/Session/Written.antt =====
-- What the status file of the session says in the end.
use xaac_thin_client_os.Base.{
  Bool, true, false, List, [], ◌∷◌, ◌≡◌, refl, any, not, ◌||◌, Bool-cases, inl, inr,
}
use xaac_thin_client_os.Session.Restarts.{
  Settings, Restarts, Round, degraded, Entry, Verdict, give_up, judge, supervise, is_voluntary,
  gives_up, counted, slowed, rounds_written, history,
}

abbrev pub is_degraded : Entry → Bool
is_degraded e = elim e.status [ degraded ↦ true | _ ↦ false ]

abbrev pub is_given_up : Verdict → Bool
is_given_up give_up = true
is_given_up _ = false

rounds_written-supervise :
    (c : Settings) (s : Restarts) (rs : List Round)
    → any is_degraded (rounds_written c s rs) ≡ is_given_up (supervise c s rs)
unfolding rounds_written supervise judge
rounds_written-supervise c s [] = refl
rounds_written-supervise c s (r ∷ rs) = elim (Bool-cases (is_voluntary c r)) [
  | inl willing ↦ rw (willing) refl
  | inr unwilling ↦ elim (Bool-cases (gives_up c (counted c r s))) [
    | inl over ↦ rw (unwilling, over) refl
    | inr more ↦ rw (unwilling, more) (rounds_written-supervise c (slowed c (counted c r s)) rs)
  ]
]

-- The supervisor writes the status `degraded` if the graphics do not come up or it gives up, and only
-- then.
pub history-supervise :
    (ready : Bool) (c : Settings) (s : Restarts) (rs : List Round)
    → any is_degraded (history ready c s rs) ≡ (not ready || is_given_up (supervise c s rs))
unfolding history
history-supervise true c s rs = rounds_written-supervise c s rs
history-supervise false c s rs = refl
