-- ===== src/Common/Join.antt =====
-- strings.Join, and how a joined text is split again from its end.
use wevibe_chain.Common.Lists.{All}
use wevibe_chain.Common.Bytes.{Text}
use Prim.Native.Nat.{ℕ}
use mathlib.Core.Path.{◌≡◌, refl, sym, ◌∙◌}
use mathlib.Core.Logic.{◌≢◌}
use mathlib.Core.List.{List, [], ◌∷◌, ◌++◌, append_assoc, append-nil}

-- The byte does not occur in the text.
abbrev pub Without : ℕ → Text → Type 0
Without b = All (λ c. c ≢ b)

byte-not-in : (b : ℕ) (s t a : Text) → Without b a → a ≡ s ++ (b ∷ t) → ⊥
byte-not-in b [] t [] h e = cc
byte-not-in b [] t (c ∷ a) h e = h.0 (cc)
byte-not-in b (d ∷ s) t [] h e = cc
byte-not-in b (d ∷ s) t (c ∷ a) h e = byte-not-in b s t a h.1 (cc)

-- A text is split in one way at the last occurrence of a byte.
pub last_byte :
    (c : ℕ) (s t a b : Text)
    → Without c a
    → Without c b
    → s ++ (c ∷ a) ≡ t ++ (c ∷ b)
    → (s ≡ t) × (a ≡ b)
last_byte c [] [] a b ha hb e = (refl, cc)
last_byte c [] (d ∷ t) a b ha hb e = absurd (byte-not-in c t b a ha (cc))
last_byte c (x ∷ s) [] a b ha hb e = absurd (byte-not-in c s a b hb (cc))
last_byte c (x ∷ s) (d ∷ t) a b ha hb e = let (p, q) = last_byte c s t a b ha hb (cc) in (cc p, q)

-- strings.Join(lines, "\n"), for the first line and the rest.
unfoldable pub join_lines : Text → List Text → Text
join_lines first [] = first
join_lines first (l ∷ ls) = join_lines (first ++ (10 ∷ l)) ls

-- The two lists have the same length.
abbrev pub IsAlike : List Text → List Text → Type 0
IsAlike [] [] = Unit
IsAlike [] (m ∷ ms) = ⊥
IsAlike (l ∷ ls) [] = ⊥
IsAlike (l ∷ ls) (m ∷ ms) = IsAlike ls ms

-- As many lines without a newline, joined to the same text, are the same lines.
pub join_lines-injective :
    (s t : Text) (ls ms : List Text)
    → IsAlike ls ms
    → All (Without 10) ls
    → All (Without 10) ms
    → join_lines s ls ≡ join_lines t ms
    → (s ≡ t) × (ls ≡ ms)
unfolding join_lines
join_lines-injective s t [] [] alike hl hm e = (e, refl)
join_lines-injective s t [] (m ∷ ms) alike hl hm e = absurd alike
join_lines-injective s t (l ∷ ls) [] alike hl hm e = absurd alike
join_lines-injective s t (l ∷ ls) (m ∷ ms) alike hl hm e =
    let (starts, rest) =
      join_lines-injective (s ++ (10 ∷ l)) (t ++ (10 ∷ m)) ls ms alike hl.1 hm.1 e in
    let (first, second) = last_byte 10 s t l m hl.0 hm.0 starts in (first, cc (second, rest))

-- A joined text starts with its first line.
pub join_lines-start : (s : Text) (ls : List Text) → (t : Text) × (join_lines s ls ≡ s ++ t)
unfolding join_lines
join_lines-start s [] = ([], sym (append-nil s))
join_lines-start s (l ∷ ls) =
    let (t, e) = join_lines-start (s ++ (10 ∷ l)) ls in
    ((10 ∷ l) ++ t, e ∙ append_assoc s (10 ∷ l) t)
