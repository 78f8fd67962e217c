-- ===== src/Base/Dict.antt =====
-- Python's `dict` where the program only reads and writes at keys: a key is a tuple of texts, and the
-- newest entry for a key is the one that is read.
use Prim.Native.String.{String}
use mathlib.Core.Path.{◌≡◌, refl}
use mathlib.Core.Logic.{◌↔◌}
use mathlib.Core.Bool.{Bool, true, false, ◌&&◌}
use mathlib.Core.Option.{Option, none, some}
use mathlib.Core.List.{List, [], ◌∷◌}
use native.Mathlib.Omega.{arith}
use text.Mathlib.Text.{◌==◌}
use text.Mathlib.TextEquality.{eq_iff}
use ragflow_agent.Base.Tests.{if◌then◌else◌}

abbrev pub Key : Type 0
Key = List String

unfoldable pub same_key : Key → Key → Bool
same_key [] [] = true
same_key (a ∷ as') (b ∷ bs) = a == b && same_key as' bs
same_key _ _ = false

pub same_key_iff : (a b : Key) → (same_key a b ≡ true) ↔ (a ≡ b)
unfolding same_key
same_key_iff [] [] = ground arith
same_key_iff [] (b ∷ bs) = ground arith
same_key_iff (a ∷ as') [] = ground arith
same_key_iff (a ∷ as') (b ∷ bs) = ground (arith, eq_iff a b, same_key_iff as' bs)

pub same_key_refl : (a : Key) → same_key a a ≡ true
same_key_refl a = (same_key_iff a a).1 refl

abbrev pub Dict {ℓ} : Type ℓ → Type ℓ
Dict V = List (Key × V)

module _ {ℓ} {V : Type ℓ} where
  -- d.get(k)
  unfoldable pub get : Dict V → Key → Option V
  get [] k = none
  get ((j, v) ∷ d) k = if same_key j k then some v else get d k

  -- d[k] = v
  unfoldable pub put : Dict V → Key → V → Dict V
  put d k v = (k, v) ∷ d

  pub get-put :
      (d : Dict V) (k j : Key) (v : V)
      → get (put d k v) j ≡ (if same_key k j then some v else get d j)
  unfolding get put
  get-put d k j v = refl
