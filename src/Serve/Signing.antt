-- ===== src/Serve/Signing.antt =====
-- What a signature over the canonical bytes binds: every field of the entry, and its kind.
use wevibe_chain.Common.{
  ℕ, zero, suc, ◌≡◌, ◌≢◌, sym, ap, ◌∙◌, [], ◌∷◌, ◌++◌, Text, codes, arith, All, append_cancel_left,
}
use wevibe_chain.Common.Join.{Without, join_lines, join_lines-injective, join_lines-start}
use wevibe_chain.Common.Decimal.{format_uint, format_uint-injective, format_uint-Without}
use wevibe_chain.Attestation.Types.{content_hash_to_hex}
use wevibe_chain.Attestation.Index.{content_hash_to_hex-injective, hex-Without}
use wevibe_chain.Serve.Canonical.{canonical_serve_body, canonical_denial_body}

hex_line : (s : Text) → Without 10 (content_hash_to_hex s)
hex_line s = hex-Without 10 s (omega arith)

number_line : (n : ℕ) → Without 10 (format_uint n)
number_line n = format_uint-Without 10 n (omega arith)

-- A header, an organisation of any bytes, a hash, an epoch, and three more byte fields.
unfoldable signed : Text → Text → Text → ℕ → Text → Text → Text → Text
signed header org h n a b c = join_lines (header ++ (10 ∷ org)) (
    content_hash_to_hex h
    ∷ (format_uint n
        ∷ (content_hash_to_hex a ∷ (content_hash_to_hex b ∷ (content_hash_to_hex c ∷ [])))))

lines_free :
    (h : Text) (n : ℕ) (a b c : Text)
    → All (Without 10) (
        content_hash_to_hex h
        ∷ (format_uint n
            ∷ (content_hash_to_hex a ∷ (content_hash_to_hex b ∷ (content_hash_to_hex c ∷ [])))))
lines_free h n a b c = (hex_line h, (number_line n, (hex_line a, (hex_line b, (hex_line c, tt)))))

signed-injective :
    (header o p g h : Text) (m n : ℕ) (a b c x y z : Text)
    → signed header o g m a b c ≡ signed header p h n x y z
    → (o ≡ p) × (g ≡ h) × (m ≡ n) × (a ≡ x) × (b ≡ y) × (c ≡ z)
unfolding signed
signed-injective header o p g h m n a b c x y z e =
    let (starts, lines) =
      join_lines-injective (header ++ (10 ∷ o)) (header ++ (10 ∷ p)) _ _ tt (lines_free g m a b c)
        (lines_free h n x y z) e in
    let org : (10 ∷ o) ≡ (10 ∷ p) = append_cancel_left header starts in
    (
      cc org,
      content_hash_to_hex-injective g h (cc lines),
      format_uint-injective m n (cc lines),
      content_hash_to_hex-injective a x (cc lines),
      content_hash_to_hex-injective b y (cc lines),
      content_hash_to_hex-injective c z (cc lines),
    )

-- The bytes that a consumer signs for a serve determine every signed field: the organisation, the
-- memory, the epoch, the serve key, the nonce and the episode, whatever bytes the organisation has.
pub canonical_serve_body-injective :
    (o p g h : Text) (m n : ℕ) (a b c x y z : Text)
    → canonical_serve_body o g m a b c ≡ canonical_serve_body p h n x y z
    → (o ≡ p) × (g ≡ h) × (m ≡ n) × (a ≡ x) × (b ≡ y) × (c ≡ z)
unfolding canonical_serve_body join_lines signed
canonical_serve_body-injective o p g h m n a b c x y z e =
    signed-injective (codes "wevibe-serve-v3") o p g h m n a b c x y z e

-- The same for a denial, whose last fields are the fingerprint of the serve and the nonce.
pub canonical_denial_body-injective :
    (o p g h : Text) (m n : ℕ) (a b c x y z : Text)
    → canonical_denial_body o g m a b c ≡ canonical_denial_body p h n x y z
    → (o ≡ p) × (g ≡ h) × (m ≡ n) × (a ≡ x) × (b ≡ y) × (c ≡ z)
unfolding canonical_denial_body join_lines signed
canonical_denial_body-injective o p g h m n a b c x y z e =
    signed-injective (codes "wevibe-denial-v1") o p g h m n a b c x y z e

-- The byte at a position, 0 past the end.
byte_at : ℕ → Text → ℕ
byte_at i [] = 0
byte_at zero (c ∷ s) = c
byte_at (suc i) (c ∷ s) = byte_at i s

-- No bytes are signed both for a serve and for a denial, so a signature of the one is none of the
-- other.
pub serve_body-ne-denial_body :
    (o p g h : Text) (m n : ℕ) (a b c x y z : Text)
    → canonical_serve_body o g m a b c ≢ canonical_denial_body p h n x y z
unfolding canonical_serve_body canonical_denial_body byte_at
serve_body-ne-denial_body o p g h m n a b c x y z e =
    let (s, es) = join_lines-start (codes "wevibe-serve-v3") _ in
    let (d, ed) = join_lines-start (codes "wevibe-denial-v1") _ in
    let eighth : 115 ≡ 100 = ap (byte_at 7) (sym es ∙ e ∙ ed) in omega (arith, eighth)
