-- ===== src/Recovery/Harmless.antt =====
-- The menu of the recovery without a word of confirmation.
use xaac_thin_client_os.Base.{
  eq_iff, subst, Bool, true, false, not, String, Option, none, some, List, [], ◌∷◌, ◌≡◌, refl, ◌&&◌,
  all, str_eq, member, strip, arith, if◌then◌else◌, Bool-cases, inl, inr,
}
use xaac_thin_client_os.Machine.{when, World, Event, M}
use xaac_thin_client_os.Machine.Keeps.{Keeps, Keeps-bind, Keeps-raise, Keeps-pure}
use xaac_thin_client_os.Machine.Quiet.{Ignores}
use xaac_thin_client_os.Recovery.Menu.{
  Action, Choice, report, confirmed, at_once, power, leave, invalid, choice_of, menu, follow,
  roll_back, repair, restore, network_on, interactive_menu,
}
use xaac_thin_client_os.Recovery.Runtime.{require_recovery_mode}
use xaac_thin_client_os.Recovery.Quiet.{is_asked, Keeps-show_status, Keeps-require_recovery_mode}

-- The effects other than the questions of the report.
abbrev pub changes : List Event → List Event
changes [] = []
changes (e ∷ t) = if is_asked e then changes t else e ∷ changes t

abbrev IsUnchanged : List Event → List Event → Type 0
IsUnchanged c t = changes t ≡ c

Ignores-IsUnchanged : (c : List Event) → Ignores is_asked (IsUnchanged c)
Ignores-IsUnchanged c = record { past = λ e q t h. rw (q) h }

-- The lines that make the menu do something: the words of confirmation and the choices that ask
-- for none.
abbrev pub commands : List String
commands = "ROLLBACK" ∷ "REPAIR" ∷ "RESTORE CONFIG" ∷ "NETWORK ON" ∷ "6" ∷ "7" ∷ "8" ∷ []

abbrev pub is_harmless : String → Bool
is_harmless line = not (member (strip line) commands)

-- A choice that does nothing but ask for a word of confirmation, or show the report.
data IsMild : Choice → Type 0 where
  reports : IsMild report
  leaves : IsMild leave
  repeats : IsMild invalid
  asks :
      (word : String) (action : Action)
      → member word commands ≡ true
      → IsMild (confirmed word action)

either :
    (b : Bool) {c d : Choice}
    → (b ≡ true → IsMild c)
    → (b ≡ false → IsMild d)
    → IsMild (if b then c else d)
either true f g = f refl
either false f g = g refl

choice_of-IsMild : (s : String) → member s commands ≡ false → IsMild (choice_of s)
choice_of-IsMild s h =
    either (str_eq s "1") (λ _. reports)
      (λ _.
        either (str_eq s "2") (λ _. asks "ROLLBACK" roll_back refl)
          (λ _.
            either (str_eq s "3") (λ _. asks "REPAIR" repair refl)
              (λ _.
                either (str_eq s "4") (λ _. asks "RESTORE CONFIG" restore refl)
                  (λ _.
                    either (str_eq s "5") (λ _. asks "NETWORK ON" network_on refl)
                      (λ _.
                        either (str_eq s "6") (λ e. absurd (ground (arith, e, h)))
                          (λ _.
                            either (str_eq s "7") (λ e. absurd (ground (arith, e, h)))
                              (λ _.
                                either (str_eq s "8") (λ e. absurd (ground (arith, e, h)))
                                  (λ _. either (str_eq s "0") (λ _. leaves) (λ _. repeats)))))))))

abbrev Asks : Option (String × Action) → Type 0
Asks none = Unit
Asks (some (word, action)) = member word commands ≡ true

-- A line that is no word of confirmation is not the one that is asked for.
unlike :
    (s word : String)
    → member word commands ≡ true
    → not (member s commands) ≡ true
    → str_eq s word ≡ false
unlike s word a h = elim (Bool-cases (str_eq s word)) [
  | inl same ↦
      let k : not (member word commands) ≡ true =
        subst (λ t. not (member t commands) ≡ true) ((eq_iff s word).0 same) h in
      absurd (ground (arith, a, k))
  | inr other ↦ other
]

not-true : (b : Bool) → not b ≡ true → b ≡ false
not-true b h = ground arith

both : (b c : Bool) → b && c ≡ true → (b ≡ true) × (c ≡ true)
both b c h = ground arith

module _ {P : List Event → Type 0} where
  Keeps-skipped : (b : Bool) (m : M (Unit {0})) → b ≡ false → Keeps P (when b m)
  Keeps-skipped false m h = Keeps-pure tt
  Keeps-skipped true m h = absurd (ground (arith, h))

module _ (available : Bool) {P : List Event → Type 0} (i : Ignores is_asked P) where
  follow-Keeps :
      (again : Option (String × Action) → M (Unit {0}))
      → ((asked : Option (String × Action)) → Asks asked → Keeps P (again asked))
      → (ch : Choice) → IsMild ch
      → Keeps P (follow available again ch)
  unfolding follow
  follow-Keeps again k report reports = Keeps-bind _ _ (Keeps-show_status i) (λ _. k none tt)
  follow-Keeps again k leave leaves = Keeps-pure tt
  follow-Keeps again k invalid repeats = k none tt
  follow-Keeps again k (confirmed word action) (asks _ _ a) = k (some (word, action)) a
  follow-Keeps again k (at_once action) x = elim x [ ]
  follow-Keeps again k (power verb) x = elim x [ ]

  menu-Keeps :
      (asked : Option (String × Action)) (lines : List String)
      → Asks asked
      → all is_harmless lines ≡ true
      → Keeps P (menu available asked lines)
  unfolding menu
  menu-Keeps none [] a h = Keeps-raise _
  menu-Keeps (some (word, action)) [] a h = Keeps-raise _
  menu-Keeps (some (word, action)) (answer ∷ rest) a h =
      let (one, others) = both (is_harmless answer) (all is_harmless rest) h in
      Keeps-bind _ _ (Keeps-skipped _ _ (unlike (strip answer) word a one))
        (λ _. menu-Keeps none rest tt others)
  menu-Keeps none (line ∷ rest) a h =
      let (one, others) = both (is_harmless line) (all is_harmless rest) h in
      follow-Keeps (λ asked. menu available asked rest) (λ asked b. menu-Keeps asked rest b others)
        (choice_of (strip line)) (choice_of-IsMild (strip line) (not-true _ one))

-- As long as nobody types a word of confirmation or one of the choices 6, 7 and 8, the menu does
-- nothing but ask the machine for its status: it writes nothing, audits nothing and runs no other
-- command.
pub interactive_menu-IsHarmless :
    (available : Bool) (lines : List String) (w : World)
    → all is_harmless lines ≡ true
    → changes (interactive_menu available lines w).1.trace ≡ changes w.trace
unfolding interactive_menu
interactive_menu-IsHarmless available lines w h =
    (Keeps-bind require_recovery_mode (λ _. menu available none lines) Keeps-require_recovery_mode
        (λ _. menu-Keeps available (Ignores-IsUnchanged (changes w.trace)) none lines tt h)).at
      w refl
