-- ===== src/Incremental/Fingerprint/Encoding.antt =====
-- What a `Fingerprinter` writes can be read back: a text, an optional text and a fingerprint are
-- known from the bytes that they add, whatever follows.
use vectorless.Base.{
  ℕ, ◌/◌, ◌%◌, ◌<◌, ◌≡◌, refl, ap, List, [], ◌∷◌, ◌++◌, Option, none, some, length, Text,
  append_cancel, append_assoc, arith,
}
use vectorless.Incremental.Fingerprint.{
  Fingerprint, Fingerprinter, write_str, write_option_str, write_fingerprint, u32_le_bytes,
}

-- The bytes of a text with its tag and length.
abbrev pub str_bytes : Text → List ℕ
str_bytes s = (b's' ∷ b';' ∷ []) ++ u32_le_bytes (length s) ++ s

abbrev pub option_bytes : Option Text → List ℕ
option_bytes none = b'n' ∷ b'o' ∷ b'n' ∷ b'e' ∷ b';' ∷ []
option_bytes (some s) = (b's' ∷ b'o' ∷ b'm' ∷ b'e' ∷ b';' ∷ []) ++ str_bytes s

abbrev pub fingerprint_bytes : Fingerprint → List ℕ
fingerprint_bytes fp = (b'f' ∷ b'p' ∷ b';' ∷ []) ++ fp

pub write_str_lem : (h : Fingerprinter) (s : Text) → write_str h s ≡ h ++ str_bytes s
unfolding write_str
write_str_lem h s = simp append_assoc

pub write_option_str_lem :
    (h : Fingerprinter) (s : Option Text) → write_option_str h s ≡ h ++ option_bytes s
unfolding write_option_str write_str
write_option_str_lem h none = simp append_assoc
write_option_str_lem h (some s) = simp append_assoc

pub write_fingerprint_lem :
    (h : Fingerprinter) (fp : Fingerprint) → write_fingerprint h fp ≡ h ++ fingerprint_bytes fp
unfolding write_fingerprint
write_fingerprint_lem h fp = simp append_assoc

-- A text is short when its length fits in the 32 bits of its length field.
abbrev pub Short : Text → Type 0
Short s = length s < 4294967296

abbrev pub ShortOption : Option Text → Type 0
ShortOption none = Unit
ShortOption (some s) = Short s

u32_le_bytes_cancel :
    (a b : ℕ)
    → a < 4294967296
    → b < 4294967296
    → a % 256 ≡ b % 256
    → a / 256 % 256 ≡ b / 256 % 256
    → a / 65536 % 256 ≡ b / 65536 % 256
    → a / 16777216 % 256 ≡ b / 16777216 % 256
    → a ≡ b
u32_le_bytes_cancel a b ha hb p q r s = omega arith

pub str_bytes_cancel :
    (s t : Text) {rs qs : List ℕ}
    → Short s
    → Short t
    → str_bytes s ++ rs ≡ str_bytes t ++ qs
    → (s ≡ t) × (rs ≡ qs)
str_bytes_cancel s t {rs} {qs} hs ht h =
    append_cancel s t {rs = rs} {qs = qs}
      (u32_le_bytes_cancel (length s) (length t) hs ht (cc h) (cc h) (cc h) (cc h)) (cc h)

pub option_bytes_cancel :
    (s t : Option Text) {rs qs : List ℕ}
    → ShortOption s
    → ShortOption t
    → option_bytes s ++ rs ≡ option_bytes t ++ qs
    → (s ≡ t) × (rs ≡ qs)
option_bytes_cancel none none hs ht h = (refl, cc h)
option_bytes_cancel none (some t) hs ht h = absurd (ground (arith, h))
option_bytes_cancel (some s) none hs ht h = absurd (ground (arith, h))
option_bytes_cancel (some s) (some t) {rs} {qs} hs ht h =
    let (a, b) = str_bytes_cancel s t {rs = rs} {qs = qs} hs ht (cc h) in (ap some a, b)
