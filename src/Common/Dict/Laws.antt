-- ===== src/Common/Dict/Laws.antt =====
-- The laws of a store: what a read returns after a write, and that writes keep the order.
use wevibe_chain.Common.Tests.{Bool-cases}
use wevibe_chain.Common.Lists.{length}
use wevibe_chain.Common.Bytes.{
  Text, text_eq, text_lt, text_eq→eq, text_eq_refl, text_eq_ne, text_lt_irrefl, text_lt_trans,
  text_lt_connex,
}
use wevibe_chain.Common.Dict.{Dict, get, insert, erase, Above, IsSorted}
use Prim.Native.Nat.{ℕ, ◌+◌, ◌≤◌}
use mathlib.Core.Path.{◌≡◌, refl, ap}
use mathlib.Core.Logic.{◌≢◌, inl, inr}
use mathlib.Core.Bool.{true}
use mathlib.Core.Option.{Option, none, some}
use mathlib.Core.List.{[], ◌∷◌}
use native.Mathlib.Omega.{arith}

module _ {ℓ} {V : Type ℓ} where
  pub get-insert_self : (k : Text) (v : V) (d : Dict V) → get k (insert k v d) ≡ some v
  unfolding get insert
  get-insert_self k v [] = ground (arith, text_eq_refl k)
  get-insert_self k v ((j, w) ∷ d) = ground (arith, text_eq_refl k, get-insert_self k v d)

  pub get-insert_ne : (j k : Text) (v : V) (d : Dict V) → j ≢ k → get j (insert k v d) ≡ get j d
  unfolding get insert
  get-insert_ne j k v [] h = ground (arith, text_eq_ne j k h)
  get-insert_ne j k v ((i, w) ∷ d) h =
      ground (arith, text_eq_ne j k h, text_eq→eq k i, get-insert_ne j k v d h)

  pub get-erase_ne : (j k : Text) (d : Dict V) → j ≢ k → get j (erase k d) ≡ get j d
  unfolding get erase
  get-erase_ne j k [] h = refl
  get-erase_ne j k ((i, w) ∷ d) h =
      ground (arith, text_eq_ne j k h, text_eq→eq k i, get-erase_ne j k d h)

  pub Above-mono : (j k : Text) (d : Dict V) → text_lt j k ≡ true → Above k d → Above j d
  Above-mono j k [] h a = tt
  Above-mono j k ((i, w) ∷ d) h a = (text_lt_trans j k i h a.0, a.1)

  pub Above-IsSorted : (k : Text) (d : Dict V) → Above k d → IsSorted d
  Above-IsSorted k [] a = tt
  Above-IsSorted k ((j, w) ∷ d) a = a.1

  -- A key below all others is not there.
  pub get-Above : (k : Text) (d : Dict V) → Above k d → get k d ≡ none
  unfolding get
  get-Above k [] a = refl
  get-Above k ((j, w) ∷ d) (lt, a) = elim (Bool-cases (text_eq k j)) [
    | inl e ↦ cc (text_lt_irrefl k, lt, ap (λ (t : Text). text_lt k t) (text_eq→eq k j e))
    | inr e ↦ rw e (get-Above k d (Above-mono k j d lt a))
  ]

  insert-Above :
      (i k : Text) (v : V) (d : Dict V) → text_lt i k ≡ true → Above i d → Above i (insert k v d)
  unfolding insert
  insert-Above i k v [] h a = (h, tt)
  insert-Above i k v ((j, w) ∷ d) h (lt, a) =
      ground (arith, text_eq→eq k j, text_lt_connex k j, insert-Above j k v d)

  pub insert-IsSorted : (k : Text) (v : V) (d : Dict V) → IsSorted d → IsSorted (insert k v d)
  unfolding insert
  insert-IsSorted k v [] s = tt
  insert-IsSorted k v ((j, w) ∷ d) s =
      ground (arith, text_eq→eq k j, text_lt_connex k j, insert-Above j k v d)

  pub get-erase_self : (k : Text) (d : Dict V) → IsSorted d → get k (erase k d) ≡ none
  unfolding get erase
  get-erase_self k [] s = refl
  get-erase_self k ((j, w) ∷ []) s = ground arith
  get-erase_self k ((j, w) ∷ ((i, u) ∷ d)) s =
      ground (arith, text_eq→eq k j, get-Above k ((i, u) ∷ d), get-erase_self k ((i, u) ∷ d) s.1)

module _ {ℓ} {V : Type ℓ} where
  erase-Above : (i k : Text) (d : Dict V) → IsSorted d → Above i d → Above i (erase k d)
  unfolding erase
  erase-Above i k [] s a = tt
  erase-Above i k ((j, w) ∷ []) s a = ground arith
  erase-Above i k ((j, w) ∷ ((l, u) ∷ d)) s a =
      ground (arith, Above-mono i j ((l, u) ∷ d) a.0, erase-Above j k ((l, u) ∷ d) s.1)

  pub erase-IsSorted : (k : Text) (d : Dict V) → IsSorted d → IsSorted (erase k d)
  unfolding erase
  erase-IsSorted k [] s = tt
  erase-IsSorted k ((j, w) ∷ []) s = ground arith
  erase-IsSorted k ((j, w) ∷ ((l, u) ∷ d)) s = ground (arith, erase-Above j k ((l, u) ∷ d) s.1)

module _ {ℓ} {V : Type ℓ} where
  -- A write under a new key adds one entry.
  pub length-insert :
      (k : Text) (v : V) (d : Dict V) → get k d ≡ none → length (insert k v d) ≡ length d + 1
  unfolding insert get
  length-insert k v [] h = refl
  length-insert k v ((j, w) ∷ d) h = ground (arith, length-insert k v d)

-- The number under a key, 0 where there is none.
abbrev pub amount : Option ℕ → ℕ
amount none = 0
amount (some n) = n

-- The sum of all the numbers.
unfoldable pub total : Dict ℕ → ℕ
total [] = 0
total ((k, n) ∷ d) = n + total d

-- A write moves the sum by the change under its key.
pub total-insert :
    (k : Text) (n : ℕ) (d : Dict ℕ)
    → IsSorted d
    → total (insert k n d) + amount (get k d) ≡ total d + n
unfolding total insert get
total-insert k n [] s = omega arith
total-insert k n ((j, m) ∷ []) s = ground arith
total-insert k n ((j, m) ∷ ((i, l) ∷ d)) s = ground (
  arith,
  total-insert k n ((i, l) ∷ d) s.1,
  Above-mono k j ((i, l) ∷ d),
  get-Above k ((i, l) ∷ d),
)

pub amount-le-total : (k : Text) (d : Dict ℕ) → amount (get k d) ≤ total d
unfolding total get
amount-le-total k [] = omega arith
amount-le-total k ((j, m) ∷ d) = ground (arith, amount-le-total k d)
