-- ===== src/Common/Texts.antt =====
-- The functions of Go's `strings` that the program calls, over native strings.
pub mod Split
use Prim.Native.Char.{Char, code}
use Prim.Native.String
use Prim.Native.String.{String, [], ◌∷◌}
use mathlib.Core.Bool.{Bool, ◌||◌}
use mathlib.Core.List.{List, [], ◌∷◌}
use text.Mathlib.Text.{◌==◌}
use rcs_ocm_deployer.Common.Tests.{if◌then◌else◌, nat_eq}

-- `strings.HasSuffix`
unfoldable pub has_suffix : String → String → Bool
has_suffix [] t = "" == t
has_suffix (c ∷ s) t = (c ∷ s) == t || has_suffix s t

-- `strings.Join`
unfoldable pub join : List String → String → String
join [] sep = ""
join (s ∷ []) sep = s
join (s ∷ t ∷ rest) sep = String.◌++◌ s (String.◌++◌ sep (join (t ∷ rest) sep))

-- a character put in front of the first part
unfoldable pub prefix : Char → List String → List String
prefix c [] = (c ∷ []) ∷ []
prefix c (p ∷ ps) = (c ∷ p) ∷ ps

abbrev pub is_colon : Char → Bool
is_colon c = nat_eq (code c) b':'

-- `strings.Split(s, ":")`
unfoldable pub split_colon : String → List String
split_colon [] = "" ∷ []
split_colon (c ∷ s) = let rest = split_colon s in if is_colon c then "" ∷ rest else prefix c rest
