-- ===== src/Common/Dict.antt =====
-- Go maps with string keys as association lists. A nil map is `none`; reading it finds nothing.
use Prim.Native.String.{String}
use mathlib.Core.Path.{◌≡◌, refl}
use mathlib.Core.Option.{Option, none, some}
use mathlib.Core.List.{List, [], ◌∷◌}
use native.Mathlib.Omega.{arith}
use text.Mathlib.Text.{◌==◌}
use text.Mathlib.TextEquality.{eq_iff}
use rcs_ocm_deployer.Common.Tests.{if◌then◌else◌}

abbrev pub Dict {ℓ} : Type ℓ → Type ℓ
Dict V = List (String × V)

module _ {ℓ} {V : Type ℓ} where
  -- m[key] with its second result: `none` is a missing key
  unfoldable pub lookup : (key : String) → (m : Dict V) → Option V
  lookup key [] = none
  lookup key (entry ∷ rest) = if entry.0 == key then some entry.1 else lookup key rest

  -- m[key] = value: an entry that is there is overwritten in its place
  unfoldable pub insert : (key : String) → (value : V) → (m : Dict V) → Dict V
  insert key value [] = (key, value) ∷ []
  insert key value (entry ∷ rest) =
      let behind = insert key value rest in
      if entry.0 == key then (entry.0, value) ∷ rest else entry ∷ behind

  -- m[key] on a map that may be nil
  abbrev pub lookup_nil : (key : String) → Option (Dict V) → Option V
  lookup_nil key none = none
  lookup_nil key (some m) = lookup key m

  -- After a write, its key has the value and every other key what it had.
  pub lookup-insert :
      (written key : String) (value : V) (m : Dict V)
      → lookup key (insert written value m) ≡ (if written == key then some value else lookup key m)
  unfolding lookup insert
  lookup-insert written key value [] = refl
  lookup-insert written key value (entry ∷ rest) =
      let ih = lookup-insert written key value rest in
      ground (arith, ih, eq_iff entry.0 written, eq_iff entry.0 key, eq_iff written key)
