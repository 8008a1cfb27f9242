-- ===== src/Common/Texts/Split.antt =====
-- `strings.Split` at colons, and `strings.Join` behind it.
use Prim.Native.Char.{Char}
use Prim.Native.String.{String, [], ◌∷◌, ◌++◌ as ◌<>◌}
use mathlib.Core.Path.{◌≡◌, refl, sym, ap, ◌∙◌}
use mathlib.Core.Logic.{inl, inr}
use mathlib.Core.Bool.{Bool, true, false, not, ◌&&◌}
use mathlib.Core.List.{List, [], ◌∷◌}
use native.Mathlib.Omega.{arith}
use text.Mathlib.TextEquality.{Char-path}
use text.Mathlib.TextLemmas.{nil-append, cons-append}
use rcs_ocm_deployer.Common.Tests.{Bool-cases, if◌then◌else◌}
use rcs_ocm_deployer.Common.Texts.{prefix, is_colon, split_colon, join}

abbrev pub no_colon : String → Bool
no_colon [] = true
no_colon (c ∷ s) = not (is_colon c) && no_colon s

abbrev pub all_no_colon : List String → Bool
all_no_colon [] = true
all_no_colon (p ∷ ps) = no_colon p && all_no_colon ps

prefix-no_colon :
    (c : Char) (ps : List String)
    → is_colon c ≡ false
    → all_no_colon ps ≡ true
    → all_no_colon (prefix c ps) ≡ true
unfolding prefix
prefix-no_colon c [] h k = ground arith
prefix-no_colon c (p ∷ ps) h k = ground arith

pub split_colon-no_colon : (s : String) → all_no_colon (split_colon s) ≡ true
unfolding split_colon
split_colon-no_colon [] = refl
split_colon-no_colon (c ∷ s) =
    grind (arith, split_colon-no_colon s, prefix-no_colon c (split_colon s))

cons_of :
    (colon : Bool) (c : Char) (parts : List String)
    → (p : String) × (ps : List String) × ((if colon then "" ∷ parts else prefix c parts) ≡ p ∷ ps)
unfolding prefix
cons_of true c parts = ("", parts, refl)
cons_of false c [] = (String.◌∷◌ c "", [], refl)
cons_of false c (p ∷ ps) = (String.◌∷◌ c p, ps, refl)

split_colon-cons : (s : String) → (p : String) × (ps : List String) × (split_colon s ≡ p ∷ ps)
unfolding split_colon prefix
split_colon-cons [] = ("", [], refl)
split_colon-cons (c ∷ s) = cons_of (is_colon c) c (split_colon s)

is_colon-eq : (c : Char) → is_colon c ≡ true → c ≡ ":"
is_colon-eq c h = Char-path c ":" (ground arith)

join-prefix :
    (c : Char) (p : String) (ps : List String)
    → join (prefix c (p ∷ ps)) ":" ≡ String.◌∷◌ c (join (p ∷ ps) ":")
unfolding join prefix
join-prefix c p [] = refl
join-prefix c p (q ∷ ps) = cons-append c p _

pub join-split_colon : (s : String) → join (split_colon s) ":" ≡ s
unfolding split_colon join
join-split_colon [] = refl
join-split_colon (c ∷ s) =
    let (p, ps, e) = split_colon-cons s in
    let ih : join (p ∷ ps) ":" ≡ s = rw (sym e) (join-split_colon s) in
    elim (Bool-cases (is_colon c)) [
      | inl colon ↦
          rw (colon, e)
            (nil-append _
              ∙ cons-append ":" "" _
              ∙ ap (λ t. String.◌∷◌ ":" t) (nil-append _ ∙ ih)
              ∙ ap (λ (d : Char). String.◌∷◌ d s) (sym (is_colon-eq c colon)))
      | inr other ↦ rw (other, e) (join-prefix c p ps ∙ ap (λ t. String.◌∷◌ c t) ih)
    ]

pub split-free : (p : String) → no_colon p ≡ true → split_colon p ≡ p ∷ []
unfolding split_colon prefix
split-free [] h = refl
split-free (c ∷ p) h = grind (arith, split-free p)

pub split-append :
    (p s : String) → no_colon p ≡ true → split_colon (p <> (":" <> s)) ≡ p ∷ split_colon s
unfolding split_colon prefix
split-append [] s h = rw (nil-append (":" <> s), cons-append ":" "" s, nil-append s) refl
split-append (c ∷ p) s h = rw (cons-append c p (":" <> s)) (grind (arith, split-append p s))
