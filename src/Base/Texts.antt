-- ===== src/Base/Texts.antt =====
-- Texts character by character. JavaScript counts in UTF-16 units; the code counts only the ASCII
-- prefix `Bearer `, where that is the same.
use Prim.Native.Nat.{ℕ, zero, suc}
use Prim.Native.Char.{Char, code}
use Prim.Native.String.{String, ◌++◌}
use mathlib.Core.Path.{◌≡◌, ap, ◌∙◌}
use mathlib.Core.Bool.{Bool, true, false, ◌&&◌, ◌||◌}
use mathlib.Core.List.{List, [], ◌∷◌}
use text.Mathlib.TextLemmas.{nil-append, cons-append}
use text.Mathlib.Text.{◌==◌ as str_eq}
use banking_platform.Base.Tests.{◌==◌}

-- `s.startsWith(p)`.
abbrev pub starts_with : String → String → Bool
starts_with s String.[] = true
starts_with String.[] (String.◌∷◌ d p) = false
starts_with (String.◌∷◌ c s) (String.◌∷◌ d p) = code c == code d && starts_with s p

-- `s.slice(n)`.
abbrev pub drop : ℕ → String → String
drop zero s = s
drop (suc n) String.[] = ""
drop (suc n) (String.◌∷◌ c s) = drop n s

-- `list.includes(s)`.
abbrev pub includes : String → List String → Bool
includes s [] = false
includes s (t ∷ ts) = str_eq t s || includes s ts

-- `Bearer ${t}`.
abbrev pub bearer : String → String
bearer t = "Bearer " ++ t

cons_front :
    (c : Char) (s t : String) {u : String} → s ++ t ≡ u → String.◌∷◌ c s ++ t ≡ String.◌∷◌ c u
cons_front c s t h = cons-append c s t ∙ ap (String.◌∷◌ c) h

bearer_lem :
    (t : String)
    → bearer t
      ≡ String.◌∷◌ "B" (
          String.◌∷◌ "e"
            (String.◌∷◌ "a" (String.◌∷◌ "r" (String.◌∷◌ "e" (String.◌∷◌ "r" (String.◌∷◌ " " t))))))
bearer_lem t = cons_front "B" "earer " t (
    cons_front "e" "arer " t (
      cons_front "a" "rer " t (
        cons_front "r" "er " t
          (cons_front "e" "r " t (cons_front "r" " " t (cons_front " " "" t (nil-append t)))))))

pub drop-bearer : (t : String) → drop 7 (bearer t) ≡ t
drop-bearer t = ap (drop 7) (bearer_lem t)

pub starts_with-bearer : (t : String) → starts_with (bearer t) "Bearer " ≡ true
starts_with-bearer t = ap (λ s. starts_with s "Bearer ") (bearer_lem t)
