-- ===== src/Base/Dict.antt =====
-- Python's `dict` with text keys: an association list in insertion order.
use Prim.Native.Nat.{◌<◌}
use Prim.Native.String.{String}
use mathlib.Core.Path.{◌≡◌, refl}
use mathlib.Core.Bool.{true, false}
use mathlib.Core.Option.{Option, none, some}
use mathlib.Core.List.{List, [], ◌∷◌, ◌++◌}
use native.Mathlib.Omega.{arith}
use text.Mathlib.Text.{◌==◌}
use text.Mathlib.TextEquality.{eq_iff}
use cairness.Base.Lists.{mem, count}
use cairness.Base.Tests.{if◌then◌else◌}

abbrev pub Dict {ℓ} : Type ℓ → Type ℓ
Dict V = List (String × V)

module _ {ℓ} {V : Type ℓ} where
  -- `m.get(k)`
  unfoldable pub get : Dict V → String → Option V
  get [] k = none
  get ((j, v) ∷ m) k = if j == k then some v else get m k

  -- `m[k] = v`: an old key keeps its place, a new one goes to the end.
  unfoldable pub put : Dict V → String → V → Dict V
  put [] k v = (k, v) ∷ []
  put ((j, w) ∷ m) k v = if j == k then (j, v) ∷ m else (j, w) ∷ put m k v

  unfoldable pub keys : Dict V → List String
  keys [] = []
  keys ((j, v) ∷ m) = j ∷ keys m

  -- `m[k] = f(m[k])`. A missing key raises KeyError in the source; here the dict is unchanged,
  -- and the callers prove that the key is there.
  unfoldable pub modify : Dict V → String → (V → V) → Dict V
  modify [] k f = []
  modify ((j, v) ∷ m) k f = if j == k then (j, f v) ∷ m else (j, v) ∷ modify m k f

  pub get-put :
      (m : Dict V) (k : String) (v : V) (j : String)
      → get (put m k v) j ≡ (if k == j then some v else get m j)
  unfolding get put
  get-put [] k v j = refl
  get-put ((i, w) ∷ m) k v j = ground (arith, eq_iff k j, eq_iff i k, eq_iff i j, get-put m k v j)

  -- `f` on the value of an optional entry.
  abbrev pub on_some : (V → V) → Option V → Option V
  on_some f none = none
  on_some f (some v) = some (f v)

  pub get-modify :
      (m : Dict V) (k : String) (f : V → V) (j : String)
      → get (modify m k f) j ≡ (if k == j then on_some f (get m j) else get m j)
  unfolding get modify
  get-modify [] k f j = ground arith
  get-modify ((i, w) ∷ m) k f j =
      ground (arith, eq_iff k j, eq_iff i k, eq_iff i j, get-modify m k f j)

  pub keys-put_new :
      (m : Dict V) (k : String) (v : V)
      → mem k (keys m) ≡ false
      → keys (put m k v) ≡ keys m ++ k ∷ []
  unfolding put keys
  keys-put_new [] k v h = refl
  keys-put_new ((j, w) ∷ m) k v h = ground (arith, keys-put_new m k v, eq_iff k j, eq_iff j k)

  pub get→count-keys : (x : String) (v : V) (m : Dict V) → get m x ≡ some v → 0 < count x (keys m)
  unfolding get keys
  get→count-keys x v [] h = absurd (cc)
  get→count-keys x v ((z, w) ∷ m) h = ground (arith, get→count-keys x v m, eq_iff x z, eq_iff z x)

  pub mem-keys-put :
      (x : String) (m : Dict V) (k : String) (v : V)
      → mem x (keys (put m k v)) ≡ (if x == k then true else mem x (keys m))
  unfolding put keys
  mem-keys-put x [] k v = ground arith
  mem-keys-put x ((j, w) ∷ m) k v =
      ground (arith, mem-keys-put x m k v, eq_iff j k, eq_iff x j, eq_iff x k)
