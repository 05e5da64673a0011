-- ===== src/Common/Range.antt =====
-- store.Iterator(prefix, end): the entries whose keys stand in a range of byte order, and the end
-- that x/attestation/keeper/keeper.go computes for a prefix.
use wevibe_chain.Common.{
  ℕ, ◌+◌, ◌%◌, ◌<◌, ◌≡◌, refl, Bool, true, false, not, ◌&&◌, Option, none, some, [], ◌∷◌, ◌++◌,
  Text, text_lt, text_eq→eq, ◌==◌, if◌then◌else◌, arith,
}
use wevibe_chain.Common.Dict.{Dict, get}

-- The loop over the bytes from the last one back: a byte is counted up, and the one before it only
-- where it became 0. The flag says that all bytes have become 0.
unfoldable pub count_up : Text → Text × Bool
count_up [] = ([], true)
count_up (c ∷ s) =
    let (s', over) = count_up s in
    if over then ((c + 1) % 256 ∷ s', (c + 1) % 256 == 0) else (c ∷ s', false)

-- prefixEndBytes; `none` is nil.
unfoldable pub prefix_end_bytes : Text → Option Text
unfolding count_up
prefix_end_bytes s = let (end, over) = count_up s in if over then none else some end

-- Below the end of an iteration, where it has one.
unfoldable pub is_below : Option Text → Text → Bool
is_below none k = true
is_below (some end) k = text_lt k end

unfoldable pub in_range : Text → Option Text → Text → Bool
unfolding is_below
in_range start end k = not (text_lt k start) && is_below end k

-- strings.HasPrefix(k, p)
unfoldable pub has_prefix : Text → Text → Bool
has_prefix [] k = true
has_prefix (c ∷ p) [] = false
has_prefix (c ∷ p) (d ∷ k) = (c == d) && has_prefix p k

module _ {ℓ} {V : Type ℓ} where
  -- The entries that the iterator visits.
  unfoldable pub range : Text → Option Text → Dict V → Dict V
  unfolding in_range
  range start end [] = []
  range start end ((k, v) ∷ d) =
      let rest = range start end d in if in_range start end k then (k, v) ∷ rest else rest

  -- A visited key has the value of the store, and any other none.
  pub get-range :
      (start : Text) (end : Option Text) (k : Text) (d : Dict V)
      → get k (range start end d) ≡ (if in_range start end k then get k d else none)
  unfolding get range
  get-range start end k [] = ground arith
  get-range start end k ((j, v) ∷ d) = ground (arith, get-range start end k d, text_eq→eq k j)

count_up_slash :
    (p : Text) (c : ℕ) → c < 255 → count_up (p ++ (c ∷ [])) ≡ (p ++ ((c + 1) ∷ []), false)
unfolding count_up
count_up_slash [] c h = ground arith
count_up_slash (d ∷ p) c h = rw (count_up_slash p c h) refl

range_end :
    (p : Text) (c : ℕ) (k : Text)
    → in_range (p ++ (c ∷ [])) (some (p ++ ((c + 1) ∷ []))) k ≡ has_prefix (p ++ (c ∷ [])) k
unfolding in_range has_prefix text_lt
range_end [] c [] = ground arith
range_end [] c (e ∷ k) = ground arith
range_end (d ∷ p) c [] = ground arith
range_end (d ∷ p) c (e ∷ k) = ground (arith, range_end p c k)

-- The range that starts at a prefix and ends where prefixEndBytes says is the keys with that
-- prefix, for a prefix whose last byte is not 255.
pub in_range-prefix_end_bytes :
    (p : Text) (c : ℕ) (k : Text)
    → c < 255
    → in_range (p ++ (c ∷ [])) (prefix_end_bytes (p ++ (c ∷ []))) k ≡ has_prefix (p ++ (c ∷ [])) k
unfolding prefix_end_bytes
in_range-prefix_end_bytes p c k h = rw (count_up_slash p c h) (range_end p c k)

pub has_prefix-append : (p s : Text) → has_prefix p (p ++ s) ≡ true
unfolding has_prefix
has_prefix-append [] s = refl
has_prefix-append (c ∷ p) s = ground (arith, has_prefix-append p s)
