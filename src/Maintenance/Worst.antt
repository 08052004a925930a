-- ===== src/Maintenance/Worst.antt =====
-- The result of the health report is the worst of its checks.
use xaac_thin_client_os.Base.{
  Bool, true, false, String, List, [], ◌∷◌, ◌≡◌, refl, any, ◌||◌, if◌then◌else◌,
}
use xaac_thin_client_os.Maintenance.Health.{
  Level, fine, warning, wrong, Finding, is_wrong, is_warning, overall_of,
}

-- The worse of two levels.
abbrev pub worse : Level → Level → Level
worse fine l = l
worse warning wrong = wrong
worse warning l = warning
worse wrong l = wrong

abbrev pub worst : List Finding → Level
worst [] = fine
worst (f ∷ fs) = worse f.level (worst fs)

-- The word for a level.
abbrev pub word_of : Level → String
word_of fine = "ok"
word_of warning = "degraded"
word_of wrong = "error"

abbrev level_of : Bool → Bool → Level
level_of true b = wrong
level_of false true = warning
level_of false false = fine

worse-level_of :
    (l : Level) (a b : Bool)
    → worse l (level_of a b)
      ≡ level_of
          ((elim l [ wrong ↦ true | _ ↦ false ]) || a)
          ((elim l [ warning ↦ true | _ ↦ false ]) || b)
worse-level_of fine a b = refl
worse-level_of warning true b = refl
worse-level_of warning false true = refl
worse-level_of warning false false = refl
worse-level_of wrong a b = refl

worst-level_of : (fs : List Finding) → worst fs ≡ level_of (any is_wrong fs) (any is_warning fs)
worst-level_of [] = refl
worst-level_of (f ∷ fs) =
    rw (worst-level_of fs) (worse-level_of f.level (any is_wrong fs) (any is_warning fs))

chosen :
    (a b : Bool) → (if a then "error" else if b then "degraded" else "ok") ≡ word_of (level_of a b)
chosen true b = refl
chosen false true = refl
chosen false false = refl

-- The result of the health report is "error", "degraded" or "ok" after the worst level among its
-- checks, "ok" where there is none.
pub overall_of-worst : (checks : List Finding) → overall_of checks ≡ word_of (worst checks)
unfolding overall_of
overall_of-worst checks =
    rw (worst-level_of checks) (chosen (any is_wrong checks) (any is_warning checks))
