-- ===== src/Base/Dict.antt =====
-- Go maps with text keys, as association lists: at most the first entry of a key counts.
use Prim.Native.String.{String}
use mathlib.Core.Path.{◌≡◌, refl}
use mathlib.Core.Option.{Option, none, some}
use mathlib.Core.List.{List, [], ◌∷◌}
use native.Mathlib.Omega.{arith}
use text.Mathlib.Text.{◌==◌}
use text.Mathlib.TextEquality.{eq_iff}
use text.Mathlib.TextPositions.{eq_refl}
use universal_crossplane.Base.Tests.{if◌then◌else◌}

abbrev pub Dict {ℓ} : Type ℓ → Type ℓ
Dict V = List (String × V)

module _ {ℓ} {V : Type ℓ} where
  -- `m[key]`
  unfoldable pub lookup : String → Dict V → Option V
  lookup key [] = none
  lookup key ((name, value) ∷ rest) = if name == key then some value else lookup key rest

  -- `m[key] = value`
  unfoldable pub insert : String → V → Dict V → Dict V
  insert key value [] = (key, value) ∷ []
  insert key value ((name, old) ∷ rest) =
      if name == key then (key, value) ∷ rest else (name, old) ∷ insert key value rest

  -- What a write leaves at another key is what was there.
  pub lookup-insert :
      (set got : String) (value : V) (d : Dict V)
      → lookup got (insert set value d) ≡ (if set == got then some value else lookup got d)
  unfolding lookup insert
  lookup-insert set got value [] = refl
  lookup-insert set got value ((name, old) ∷ rest) =
      ground
        (arith, lookup-insert set got value rest, eq_iff name set, eq_iff name got, eq_iff set got)

  pub lookup-insert_self :
      (key : String) (value : V) (d : Dict V) → lookup key (insert key value d) ≡ some value
  lookup-insert_self key value d = rw (lookup-insert key key value d, eq_refl key) refl

  pub insert-insert : (k : String) (v w : V) (m : Dict V) → insert k v (insert k w m) ≡ insert k v m
  unfolding insert
  insert-insert k v w [] = ground (arith, eq_iff k k)
  insert-insert k v w ((j, u) ∷ m) = ground (arith, eq_iff k k, eq_iff j k, insert-insert k v w m)

-- `m[k]` where the zero value of the type is the empty text.
unfoldable pub get_text : String → Dict String → String
get_text k m = elim (lookup k m) [ none ↦ "" | some v ↦ v ]

pub get_text-insert_self : (k v : String) (m : Dict String) → get_text k (insert k v m) ≡ v
unfolding get_text
get_text-insert_self k v m = rw (lookup-insert_self k v m, get_text) refl
