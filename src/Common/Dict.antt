-- ===== src/Common/Dict.antt =====
-- A store: byte keys with their values, in ascending byte order of the keys, which is the order
-- in which a store iterates. A missing key reads as `none`, the source's nil.
pub mod Laws
pub mod Rebuild
use wevibe_chain.Common.Tests.{if◌then◌else◌}
use wevibe_chain.Common.Bytes.{Text, text_eq, text_lt}
use mathlib.Core.Path.{◌≡◌}
use mathlib.Core.Bool.{true}
use mathlib.Core.Option.{Option, none, some}
use mathlib.Core.List.{List, [], ◌∷◌}

abbrev pub Dict {ℓ} : Type ℓ → Type ℓ
Dict V = List (Text × V)

module _ {ℓ} {V : Type ℓ} where
  -- store.Get
  unfoldable pub get : Text → Dict V → Option V
  unfolding text_eq
  get k [] = none
  get k ((j, v) ∷ d) = if text_eq k j then some v else get k d

  -- store.Set
  unfoldable pub insert : Text → V → Dict V → Dict V
  unfolding text_eq text_lt
  insert k v [] = (k, v) ∷ []
  insert k v ((j, w) ∷ d) =
      if text_eq k j
      then (k, v) ∷ d
      else (if text_lt k j then (k, v) ∷ ((j, w) ∷ d) else (j, w) ∷ insert k v d)

  -- store.Delete
  unfoldable pub erase : Text → Dict V → Dict V
  unfolding text_eq
  erase k [] = []
  erase k ((j, w) ∷ d) = if text_eq k j then d else (j, w) ∷ erase k d

  -- The values in the order of iteration.
  abbrev pub values : Dict V → List V
  values [] = []
  values ((j, v) ∷ d) = v ∷ values d

module _ {ℓ} {V : Type ℓ} where
  -- Every key of the store is above the key, and the keys ascend.
  abbrev pub Above : Text → Dict V → Type 0
  Above k [] = Unit
  Above k ((j, w) ∷ d) = (text_lt k j ≡ true) × Above j d

  abbrev pub IsSorted : Dict V → Type 0
  IsSorted [] = Unit
  IsSorted ((j, w) ∷ d) = Above j d
