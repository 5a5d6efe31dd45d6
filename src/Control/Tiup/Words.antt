-- ===== src/Control/Tiup/Words.antt =====
-- strings: Contains, HasSuffix, Split and Join, on texts of bytes.
use naglfar.Prelude.{
  ℕ, Bool, true, false, ◌&&◌, ◌||◌, List, [], ◌∷◌, ◌++◌, Str, ◌==◌, if◌then◌else◌,
}

unfoldable pub starts : Str → Str → Bool
starts [] s = true
starts (a ∷ p) [] = false
starts (a ∷ p) (b ∷ s) = a == b && starts p s

unfoldable pub contains : Str → Str → Bool
unfolding starts
contains words [] = starts words []
contains words (c ∷ s) = starts words (c ∷ s) || contains words s

unfoldable pub ends : Str → Str → Bool
unfolding starts
ends words [] = starts words []
ends words (c ∷ s) = (starts words (c ∷ s) && starts (c ∷ s) words) || ends words s

abbrev pub onto_first : ℕ → List Str → List Str
onto_first c [] = (c ∷ []) ∷ []
onto_first c (piece ∷ pieces) = (c ∷ piece) ∷ pieces

unfoldable pub split_at : ℕ → Str → List Str
split_at sep [] = [] ∷ []
split_at sep (c ∷ s) =
    let rest = split_at sep s in if c == sep then [] ∷ rest else onto_first c rest

unfoldable pub join : Str → List Str → Str
join sep [] = []
join sep (w ∷ []) = w
join sep (w ∷ v ∷ ws) = w ++ (sep ++ join sep (v ∷ ws))

unfoldable pub concat : List Str → Str
concat [] = []
concat (w ∷ ws) = w ++ concat ws
