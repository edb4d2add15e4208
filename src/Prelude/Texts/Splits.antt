-- ===== src/Prelude/Texts/Splits.antt =====
-- Splitting at a separator undoes joining.
use Prim.Native.Nat.{ℕ}
use Prim.Native.Char.{Char, code}
use Prim.Native.String.{String, [], ◌∷◌}
use mathlib.Core.List.{List}
use mathlib.Core.Logic.{◌≢◌}
use mathlib.Core.Path.{◌≡◌, refl}
use native.Mathlib.Omega.{arith}
use ofcir.Prelude.Texts.{concat, split}

-- the text does not hold the character
abbrev pub Lacks : ℕ → String → Type 0
Lacks sep [] = Unit
Lacks sep (c ∷ s) = (code c ≢ sep) × Lacks sep s

abbrev pub AllLack : ℕ → List String → Type 0
AllLack sep List.[] = Unit
AllLack sep (List.◌∷◌ w ws) = Lacks sep w × AllLack sep ws

-- `strings.Join`
abbrev pub join : Char → String → List String → String
join sep w List.[] = w
join sep w (List.◌∷◌ v ws) = concat w (sep ∷ join sep v ws)

split_word : (sep : ℕ) (w : String) → Lacks sep w → split sep w ≡ List.◌∷◌ w List.[]
unfolding split
split_word sep [] h = refl
split_word sep (c ∷ s) h = ground (arith, split_word sep s h.1)

split-concat :
    (sep : Char) (w t : String)
    → Lacks (code sep) w
    → split (code sep) (concat w (sep ∷ t)) ≡ List.◌∷◌ w (split (code sep) t)
unfolding split
split-concat sep [] t h = ground arith
split-concat sep (c ∷ s) t h = ground (arith, split-concat sep s t h.1)

-- words that lack the separator are read back from their join
pub split-join :
    (sep : Char) (w : String) (ws : List String)
    → Lacks (code sep) w
    → AllLack (code sep) ws
    → split (code sep) (join sep w ws) ≡ List.◌∷◌ w ws
split-join sep w List.[] h k = split_word (code sep) w h
split-join sep w (List.◌∷◌ v ws) h k =
    rw (split-concat sep w (join sep v ws) h) (rw (split-join sep v ws k.0 k.1))
