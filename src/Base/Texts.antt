-- ===== src/Base/Texts.antt =====
-- Tests on texts and on lists of them: `==` of std::string and of std::vector<std::string>.
use Prim.Native.String.{String}
use text.Mathlib.Text.{◌==◌}
use text.Mathlib.TextEquality.{eq_iff}
use mathlib.Core.Path.{◌≡◌, refl}
use mathlib.Core.Logic.{◌↔◌}
use mathlib.Core.Bool.{Bool, true, false, ◌&&◌, ◌||◌}
use mathlib.Core.List.{List, [], ◌∷◌}
use native.Mathlib.Omega.{arith}
use Prim.Native.String.{String}
use text.Mathlib.TextEquality.{eq_iff}
use text.Mathlib.Text.{◌==◌}

unfoldable pub str_eq : String → String → Bool
str_eq s t = s == t

pub str_eq_iff : (s t : String) → (str_eq s t ≡ true) ↔ (s ≡ t)
unfolding str_eq
str_eq_iff s t = eq_iff s t

unfoldable pub strs_eq : List String → List String → Bool
strs_eq [] [] = true
strs_eq (s ∷ ss) (t ∷ ts) = str_eq s t && strs_eq ss ts
strs_eq _ _ = false

pub strs_eq_iff : (ss ts : List String) → (strs_eq ss ts ≡ true) ↔ (ss ≡ ts)
unfolding strs_eq
strs_eq_iff [] [] = (λ _. refl, λ _. refl)
strs_eq_iff [] (t ∷ ts) = (λ h. cc, λ h. cc)
strs_eq_iff (s ∷ ss) [] = (λ h. cc, λ h. cc)
strs_eq_iff (s ∷ ss) (t ∷ ts) = ground (arith, str_eq_iff s t, strs_eq_iff ss ts)

-- `std::find(v.begin(), v.end(), s) != v.end()`
unfoldable pub has_text : List String → String → Bool
has_text [] s = false
has_text (t ∷ ts) s = str_eq t s || has_text ts s
