-- ===== src/Session/Budget.antt =====
-- The bounds on restarts and pauses, and the end of a crash loop.
use xaac_thin_client_os.Base.{
  ap, ◌∙◌, sym, ℕ, suc, ◌+◌, ◌≤◌, Bool, true, false, List, [], ◌∷◌, ◌≡◌, refl, length, ltb, arith,
  if◌then◌else◌, ◌&&◌, not, all, Bool-cases, inl, inr, ◌⊎◌,
}
use xaac_thin_client_os.Session.Restarts.{
  Settings, Restarts, Round, Verdict, stop, give_up, again, counted, judge, after_verdict,
  supervise, started_at, slowed, is_voluntary, gives_up,
}

-- One round after which the supervisor goes on.
pub data Step (c : Settings) : Restarts → Restarts → Type 0 where
  restarted : {s t : Restarts} (r : Round) → judge c s r ≡ again t → Step c s t

-- The states that the supervisor reaches from a start.
pub data Reaches (c : Settings) : Restarts → Type 0 where
  begun : (now : ℕ) → Reaches c (started_at c now)
  later : {s t : Restarts} → Reaches c s → Step c s t → Reaches c t

pub record IsWithin (c : Settings) (s : Restarts) : Type 0 where
  pub attempts_bound : s.attempts ≤ c.max_restarts
  pub backoff_bound : s.backoff ≤ c.max_backoff
  pub backoff_grows : c.initial_backoff ≤ s.backoff

counted-attempts :
    (c : Settings) (r : Round) (s : Restarts) → (counted c r s).attempts ≤ suc s.attempts
unfolding counted
counted-attempts c r s = ground arith

-- A round of a crash loop: the client fails early, and within the window.
abbrev pub is_crash : Settings → ℕ → Round → Bool
is_crash c window_start r =
    not (is_voluntary c r)
    && (ltb r.ended (r.started + c.reset_after) && not (ltb (window_start + c.window) r.ended))

crash_parts : (a b d : Bool) → not a && (b && not d) ≡ true → (a ≡ false) × (b ≡ true) × (d ≡ false)
crash_parts a b d h = (ground arith, ground arith, ground arith)

judge-crash :
    (c : Settings) (s : Restarts) (r : Round)
    → is_crash c s.window_start r ≡ true
    → judge c s r ≡ (
        if ltb c.max_restarts (suc s.attempts)
        then give_up
        else again (slowed c (record s { attempts = suc s.attempts })))
unfolding judge counted
judge-crash c s r h =
    let (chosen, early, inside) = crash_parts (is_voluntary c r) _ _ h in
    rw (chosen, early, inside) refl

both : (b c : Bool) → b && c ≡ true → (b ≡ true) × (c ≡ true)
both b c h = ground arith

judge-cases :
    (c : Settings) (s : Restarts) (r : Round)
    → (judge c s r ≡ stop)
      ⊎ ((judge c s r ≡ give_up) × (gives_up c (counted c r s) ≡ true))
      ⊎ ((judge c s r ≡ again (slowed c (counted c r s))) × (gives_up c (counted c r s) ≡ false))
unfolding judge
judge-cases c s r = elim (Bool-cases (is_voluntary c r)) [
  | inl v ↦ inl (rw (v) refl)
  | inr n ↦ elim (Bool-cases (gives_up c (counted c r s))) [
    | inl g ↦ inr (inl (rw (n, g) refl, g))
    | inr k ↦ inr (inr (rw (n, k) refl, k))
  ]
]

no-stop : {A : Type 0} → stop ≡ give_up → A
no-stop h = cc

-- A crash loop ends: where the client keeps failing early and within the window, the supervisor gives
-- up after the rounds that the budget has left, if it has not been used up before.
pub supervise-crash :
    (c : Settings) (s : Restarts) (rs : List Round)
    → s.attempts ≤ c.max_restarts
    → s.attempts + length rs ≡ suc c.max_restarts
    → all (is_crash c s.window_start) rs ≡ true
    → supervise c s rs ≡ give_up
unfolding supervise
supervise-crash c s [] low count h = absurd (omega arith)
supervise-crash c s (r ∷ rs) low count h =
    let (one, others) = both (is_crash c s.window_start r) (all (is_crash c s.window_start) rs) h in
    let u : Restarts = record s { attempts = suc s.attempts } in
    ap (after_verdict (λ t. supervise c t rs)) (judge-crash c s r one)
    ∙ elim (Bool-cases (ltb c.max_restarts (suc s.attempts))) [
      | inl spent ↦ rw (spent) refl
      | inr left ↦ rw (left) (supervise-crash c (slowed c u) rs (ground arith) (omega arith) others)
    ]

-- The supervisor gives up only behind more rounds than `max_restarts`, those counted before it
-- included, if the budget has not been used up before.
pub supervise-patient :
    (c : Settings) (s : Restarts) (rs : List Round)
    → s.attempts ≤ c.max_restarts
    → supervise c s rs ≡ give_up
    → suc c.max_restarts ≤ s.attempts + length rs
unfolding supervise
supervise-patient c s [] low h = cc
supervise-patient c s (r ∷ rs) low h =
    let next : Restarts → Verdict = λ t. supervise c t rs in
    let most = counted-attempts c r s in
    elim (judge-cases c s r) [
      | inl stopped ↦ no-stop (sym (ap (after_verdict next) stopped) ∙ h)
      | inr (inl (e, spent)) ↦ ground arith
      | inr (inr (e, left)) ↦
          let enough =
            supervise-patient c (slowed c (counted c r s)) rs (ground arith)
              (sym (ap (after_verdict next) e) ∙ h) in
          omega arith
    ]
