-- ===== src/Config/Frames.antt =====
-- agent/services/encode_config.py: the header of an encoded configuration.
use pitlane_agent.Common.{ℕ, ◌+◌, ◌*◌, ◌/◌, ◌%◌, ◌<◌, ◌≡◌, ◌↔◌, List, [], ◌∷◌, arith}

-- The bytes of the length: `[0x00, 0x00, (length >> 8) & 0xFF, length & 0xFF]`.
unfoldable pub header : ℕ → List ℕ
header length = 0 ∷ 0 ∷ ((length / 256) % 256) ∷ (length % 256) ∷ []

-- The number that bytes are, the most significant first.
abbrev pub big_endian : ℕ → List ℕ → ℕ
big_endian n [] = n
big_endian n (b ∷ bs) = big_endian (n * 256 + b) bs

-- The header announces the length modulo 65,536.
pub big_endian-header : (n : ℕ) → big_endian 0 (header n) ≡ n % 65536
unfolding header
big_endian-header n = omega arith

-- The header announces the length of the text exactly where that is below 65,536 bytes.
pub header_exact : (n : ℕ) → (big_endian 0 (header n) ≡ n) ↔ (n < 65536)
header_exact n =
    ((λ e. omega (arith, e, big_endian-header n)), (λ l. omega (arith, l, big_endian-header n)))
