-- ===== src/Configuration/Trimmed.antt =====
-- A text that is stripped is left alone by a second `strip`.
use xaac_thin_client_os.Base.{
  Bool, true, false, String, ◌≡◌, refl, ap, ◌∙◌, ◌&&◌, is_empty, is_space, strip, strip_left,
  strip_right, Bool-cases, inl, inr,
}
use Prim.Native.Char.{Char}

strip_right-again : (s : String) → strip_right (strip_right s) ≡ strip_right s
unfolding strip_right
strip_right-again String.[] = refl
strip_right-again (String.◌∷◌ c s) = elim (Bool-cases (is_empty (strip_right s) && is_space c)) [
  | inl blank ↦ rw (blank) refl
  | inr kept ↦ rw (kept, strip_right-again s, kept) refl
]

-- What `strip_left` leaves begins with no blank.
data IsFlush : String → Type 0 where
  nothing : IsFlush ""
  begins : (c : Char) (s : String) → is_space c ≡ false → IsFlush (String.◌∷◌ c s)

strip_left-IsFlush : (s : String) → IsFlush (strip_left s)
unfolding strip_left
strip_left-IsFlush String.[] = nothing
strip_left-IsFlush (String.◌∷◌ c s) = elim (Bool-cases (is_space c)) [
  | inl blank ↦ rw (blank) (strip_left-IsFlush s)
  | inr first ↦ rw (first) (begins c s first)
]

and_false : (a b : Bool) → b ≡ false → a && b ≡ false
and_false true b h = h
and_false false b h = refl

strip_right-IsFlush : (s : String) → IsFlush s → IsFlush (strip_right s)
unfolding strip_right
strip_right-IsFlush _ nothing = nothing
strip_right-IsFlush _ (begins c s h) =
    rw (and_false (is_empty (strip_right s)) (is_space c) h) (begins c (strip_right s) h)

flush_lem : (s : String) → IsFlush s → strip_left s ≡ s
unfolding strip_left
flush_lem _ nothing = refl
flush_lem _ (begins c s h) = rw (h) refl

pub strip-again : (s : String) → strip (strip s) ≡ strip s
unfolding strip
strip-again s =
    ap strip_right (
      flush_lem (strip_right (strip_left s))
        (strip_right-IsFlush (strip_left s) (strip_left-IsFlush s)))
    ∙ strip_right-again (strip_left s)
