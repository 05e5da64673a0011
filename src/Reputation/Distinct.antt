-- ===== src/Reputation/Distinct.antt =====
-- Lists of organisations without repetition, as the loop of RecordServe over the set builds them
-- (x/reputation/keeper/keeper.go).
use mathlib.Core.List.{List, Mem, mem-cons}
use wevibe_chain.Common.{
  All, ◌≡◌, ◌≢◌, refl, sym, true, false, [], ◌∷◌, ◌++◌, Text, arith, text_eq, text_eq→eq,
  eq_false_ne, Bool-cases, inl, inr,
}
use wevibe_chain.Reputation.Keeper.{contains}

-- No organisation stands in the list twice.
abbrev pub IsDistinct : List Text → Type 0
IsDistinct [] = Unit
IsDistinct (o ∷ rest) = All (λ p. p ≢ o) rest × IsDistinct rest

pub contains-All : (org : Text) (l : List Text) → contains org l ≡ false → All (λ p. p ≢ org) l
unfolding contains
contains-All org [] h = tt
contains-All org (o ∷ rest) h =
    (eq_false_ne o org (ground arith), contains-All org rest (ground arith))

pub contains-Mem : (org : Text) (l : List Text) → contains org l ≡ true → Mem org l
unfolding contains
contains-Mem org [] h = ground arith
contains-Mem org (o ∷ rest) h = elim (Bool-cases (text_eq o org)) [
  | inl same ↦ mem-cons.1 ∣ inl (sym (text_eq→eq o org same)) ∣₁
  | inr other ↦ mem-cons.1 ∣ inr (contains-Mem org rest (ground arith)) ∣₁
]

pub Mem-snoc : (org : Text) (l : List Text) → Mem org (l ++ (org ∷ []))
Mem-snoc org [] = mem-cons.1 ∣ inl refl ∣₁
Mem-snoc org (o ∷ rest) = mem-cons.1 ∣ inr (Mem-snoc org rest) ∣₁

All-snoc :
    (o org : Text) (l : List Text)
    → All (λ p. p ≢ o) l
    → org ≢ o
    → All (λ p. p ≢ o) (l ++ (org ∷ []))
All-snoc o org [] a h = (h, tt)
All-snoc o org (p ∷ rest) a h = (a.0, All-snoc o org rest a.1 h)

pub IsDistinct-snoc :
    (org : Text) (l : List Text)
    → All (λ p. p ≢ org) l
    → IsDistinct l
    → IsDistinct (l ++ (org ∷ []))
IsDistinct-snoc org [] a d = (tt, tt)
IsDistinct-snoc org (o ∷ rest) a d =
    (All-snoc o org rest d.0 (λ e. a.0 (sym e)), IsDistinct-snoc org rest a.1 d.1)
