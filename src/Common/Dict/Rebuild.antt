-- ===== src/Common/Dict/Rebuild.antt =====
-- Writing the values of a store back, in the order of iteration: what a genesis export and a
-- later import do.
use wevibe_chain.Common.Tests.{Bool-cases}
use wevibe_chain.Common.Bytes.{
  Text, text_eq, text_lt, text_lt_irrefl, text_lt_trans, text_eq_ne, text_eq→eq,
}
use wevibe_chain.Common.Dict.{Dict, get, insert, values, Above, IsSorted}
use mathlib.Core.Path.{◌≡◌, refl, ap, sym, subst, ◌∙◌}
use mathlib.Core.Logic.{inl, inr}
use mathlib.Core.Bool.{true, false, false≢true}
use mathlib.Core.Option.{some}
use mathlib.Core.List.{List, [], ◌∷◌, ◌++◌, append-nil, append_assoc}
use native.Mathlib.Omega.{arith}

lt_ne : (j k : Text) → text_lt j k ≡ true → text_eq k j ≡ false
lt_ne j k h = text_eq_ne k j λ e. false≢true (sym (text_lt_irrefl j) ∙ ap (text_lt j) (sym e) ∙ h)

lt_asymm : (j k : Text) → text_lt j k ≡ true → text_lt k j ≡ false
lt_asymm j k h = elim (Bool-cases (text_lt k j)) [
  | inl e ↦ absurd (false≢true (sym (text_lt_irrefl j) ∙ text_lt_trans j k j h e))
  | inr e ↦ e
]

module _ {ℓ} {V : Type ℓ} where
  -- Every value stands under the key that is computed from it.
  abbrev pub IsKeyed : (V → Text) → Dict V → Type 0
  IsKeyed key [] = Unit
  IsKeyed key ((k, v) ∷ d) = (k ≡ key v) × IsKeyed key d

  unfoldable pub insert_all : (V → Text) → List V → Dict V → Dict V
  insert_all key [] d = d
  insert_all key (v ∷ vs) d = insert_all key vs (insert (key v) v d)

  Above-last :
      (j k : Text) (v : V) (d e : Dict V) → Above j (d ++ ((k, v) ∷ e)) → text_lt j k ≡ true
  Above-last j k v [] e a = a.0
  Above-last j k v ((i, w) ∷ d) e a = text_lt_trans j i k a.0 (Above-last i k v d e a.1)

  insert-Above :
      (j k : Text) (v : V) (d e : Dict V)
      → Above j (d ++ ((k, v) ∷ e))
      → insert k v d ≡ d ++ ((k, v) ∷ [])
  unfolding insert
  insert-Above j k v [] e a = refl
  insert-Above j k v ((i, w) ∷ d) e a =
      let lt = Above-last i k v d e a.1 in
      rw (lt_ne i k lt, lt_asymm i k lt, insert-Above i k v d e a.1)

  -- A key above all others is written at the end.
  insert_last :
      (k : Text) (v : V) (d e : Dict V)
      → IsSorted (d ++ ((k, v) ∷ e))
      → insert k v d ≡ d ++ ((k, v) ∷ [])
  unfolding insert
  insert_last k v [] e s = refl
  insert_last k v ((i, w) ∷ d) e s =
      let lt = Above-last i k v d e s in
      rw (lt_ne i k lt, lt_asymm i k lt, insert-Above i k v d e s)

  insert_key_last :
      (key : V → Text) (k : Text) (v : V) (d e : Dict V)
      → k ≡ key v
      → IsSorted (d ++ ((k, v) ∷ e))
      → insert (key v) v d ≡ d ++ ((k, v) ∷ [])
  insert_key_last key k v d e h s = rw (← h) (insert_last k v d e s)

  insert_all_onto :
      (key : V → Text) (d acc : Dict V)
      → IsSorted (acc ++ d)
      → IsKeyed key d
      → insert_all key (values d) acc ≡ acc ++ d
  unfolding insert_all
  insert_all_onto key [] acc s h = simp append-nil
  insert_all_onto key ((k, v) ∷ d) acc s h =
      ap (insert_all key (values d)) (insert_key_last key k v acc d h.0 s)
      ∙ insert_all_onto key d (acc ++ ((k, v) ∷ [])) (rw append_assoc s) h.1
      ∙ append_assoc acc ((k, v) ∷ []) d

  -- Writing all values of a store into an empty one gives the store back.
  pub insert_all-values :
      (key : V → Text) (d : Dict V) → IsSorted d → IsKeyed key d → insert_all key (values d) [] ≡ d
  insert_all-values key d s h = insert_all_onto key d [] s h

module _ {ℓ} {V : Type ℓ} where
  -- A write under the value's own key keeps every value under its key.
  pub insert-IsKeyed :
      (key : V → Text) (v : V) (d : Dict V) → IsKeyed key d → IsKeyed key (insert (key v) v d)
  unfolding insert
  insert-IsKeyed key v [] h = (refl, tt)
  insert-IsKeyed key v ((j, w) ∷ d) h = ground (arith, insert-IsKeyed key v d h.1)

module _ {ℓ} {V : Type ℓ} where
  -- A value that is found stands under its own key.
  pub get-IsKeyed :
      (key : V → Text) (k : Text) (v : V) (d : Dict V)
      → IsKeyed key d
      → get k d ≡ some v
      → k ≡ key v
  unfolding get
  get-IsKeyed key k v [] h e = cc
  get-IsKeyed key k v ((j, w) ∷ d) h e = elim (Bool-cases (text_eq k j)) [
    | inl same ↦ let here : w ≡ v = ground arith in text_eq→eq k j same ∙ h.0 ∙ ap key here
    | inr other ↦ get-IsKeyed key k v d h.1 (ground arith)
  ]

module _ {ℓ κ} {V : Type ℓ} (P : V → Type κ) where
  -- Every stored value has the property.
  abbrev pub AllValues : Dict V → Type κ
  AllValues [] = Unit
  AllValues ((k, v) ∷ d) = P v × AllValues d

  pub insert-AllValues :
      (k : Text) (v : V) (d : Dict V) → P v → AllValues d → AllValues (insert k v d)
  unfolding insert
  insert-AllValues k v [] p h = (p, tt)
  insert-AllValues k v ((j, w) ∷ d) p h = ground (arith, insert-AllValues k v d p h.1)

  pub get-AllValues : (k : Text) (d : Dict V) (v : V) → AllValues d → get k d ≡ some v → P v
  unfolding get
  get-AllValues k [] v h e = cc
  get-AllValues k ((j, w) ∷ d) v h e = elim (Bool-cases (text_eq k j)) [
    | inl same ↦ let e' : w ≡ v = ground arith in subst P e' h.0
    | inr other ↦ get-AllValues k d v h.1 (ground arith)
  ]
