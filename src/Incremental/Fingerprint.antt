-- ===== src/Incremental/Fingerprint.antt =====
-- Fingerprints: `Fingerprinter` and `NodeFingerprint` of
-- crates/vectorless-utils/src/fingerprint.rs.
--
-- A hasher is the list of the bytes that it was given, and BLAKE2b-128 is a parameter `digest` of
-- what uses it. A text is the list of its bytes.
pub mod Encoding
use vectorless.Base.{
  ℕ, suc, ◌+◌, ◌*◌, ◌/◌, ◌%◌, Bool, true, false, not, ◌&&◌, List, [], ◌∷◌, ◌++◌, Option, none, some,
  length, Text, text_eq, if◌then◌else◌,
}

-- The bytes of a `Fingerprint`.
abbrev pub Fingerprint : Type 0
Fingerprint = List ℕ

pub record NodeFingerprint : Type 0 where
  pub content : Fingerprint
  pub subtree : Fingerprint

-- `NodeFingerprint::leaf`
abbrev pub leaf_fingerprint : Fingerprint → NodeFingerprint
leaf_fingerprint content = record { content = content; subtree = content }

-- `NodeFingerprint::content_changed`
unfoldable pub content_changed : NodeFingerprint → NodeFingerprint → Bool
content_changed self other = not (text_eq self.content other.content)

-- `NodeFingerprint::subtree_changed`
unfoldable pub subtree_changed : NodeFingerprint → NodeFingerprint → Bool
subtree_changed self other = not (text_eq self.subtree other.subtree)

-- `NodeFingerprint::only_descendants_changed`
unfoldable pub only_descendants_changed : NodeFingerprint → NodeFingerprint → Bool
only_descendants_changed self other =
    text_eq self.content other.content && not (text_eq self.subtree other.subtree)

-- What a `Fingerprinter` was given.
abbrev pub Fingerprinter : Type 0
Fingerprinter = List ℕ

-- `hasher.update`
abbrev pub update : Fingerprinter → List ℕ → Fingerprinter
update h bytes = h ++ bytes

abbrev pub write_type_tag : Fingerprinter → List ℕ → Fingerprinter
write_type_tag h tag = update (update h tag) (b';' ∷ [])

-- `(n as u32).to_le_bytes()`
abbrev pub u32_le_bytes : ℕ → List ℕ
u32_le_bytes n = (n % 256) ∷ (n / 256 % 256) ∷ (n / 65536 % 256) ∷ (n / 16777216 % 256) ∷ []

abbrev pub write_varlen_bytes : Fingerprinter → List ℕ → Fingerprinter
write_varlen_bytes h bytes = update (update h (u32_le_bytes (length bytes))) bytes

unfoldable pub write_str : Fingerprinter → Text → Fingerprinter
write_str h s = write_varlen_bytes (write_type_tag h (b's' ∷ [])) s

unfoldable pub write_bytes : Fingerprinter → List ℕ → Fingerprinter
write_bytes h bytes = write_varlen_bytes (write_type_tag h (b'b' ∷ [])) bytes

unfoldable pub write_bool : Fingerprinter → Bool → Fingerprinter
write_bool h b = write_type_tag h (if b then b't' ∷ [] else b'f' ∷ [])

unfoldable pub write_option_str : Fingerprinter → Option Text → Fingerprinter
unfolding write_str
write_option_str h none = write_type_tag h (b'n' ∷ b'o' ∷ b'n' ∷ b'e' ∷ [])
write_option_str h (some s) = write_str (write_type_tag h (b's' ∷ b'o' ∷ b'm' ∷ b'e' ∷ [])) s

unfoldable pub write_fingerprint : Fingerprinter → Fingerprint → Fingerprinter
write_fingerprint h fp = update (write_type_tag h (b'f' ∷ b'p' ∷ [])) fp
