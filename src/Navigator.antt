-- ===== src/Navigator.antt =====
-- Walking through an understood document: `DocumentNavigator` of
-- crates/vectorless-primitives/src/navigator.rs.
--
-- Texts are lists of bytes and node ids are numbers. The document is the interface `Doc`, with what
-- its tree, its navigation index and the resolution of titles answer. An operation that returns an
-- error leaves the navigator as it was, so a result holds either an error or the new navigator.
-- Sets are lists without repetitions; the history is written from its last entry.
pub mod Ids
pub mod Moves
pub mod Invariant
pub mod Collecting
pub mod Steps
pub mod Back
mod Tests
use vectorless.Base.{
  ℕ, zero, suc, ◌+◌, ◌*◌, ◌-◌, Bool, true, false, not, ◌&&◌, List, [], ◌∷◌, ◌++◌, Option, none,
  some, Result, ok, err, ltb, leb, ◌==◌, any, map, length, Text, if◌then◌else◌,
}

-- The title and the content of a node.
pub record NodeText : Type 0 where
  pub title : Text
  pub content : Text

pub record ChildRoute : Type 0 where
  pub node_id : ℕ
  pub title : Text

-- The fields of a navigation entry that are read here.
pub record NavEntry : Type 0 where
  pub question_hints : List Text
  pub topic_tags : List Text
  pub leaf_count : ℕ

pub record NodeInfo : Type 0 where
  pub id : ℕ
  pub title : Text
  pub depth : ℕ
  pub child_count : ℕ
  pub leaf_count : ℕ
  pub question_hints : List Text
  pub topic_tags : List Text

-- What a document answers: its tree, its navigation index, and `resolve_target_extended` for a
-- title and a cursor.
pub record Doc : Type 0 where
  pub root : ℕ
  pub traverse : List ℕ
  pub get : ℕ → Option NodeText
  pub parent : ℕ → Option ℕ
  pub path_from_root : ℕ → List ℕ
  pub depth : ℕ → ℕ
  pub child_count : ℕ → ℕ
  pub child_routes : ℕ → Option (List ChildRoute)
  pub entry : ℕ → Option NavEntry
  pub resolve_target : Text → ℕ → Option ℕ

pub record CollectedEvidence : Type 0 where
  pub node_id : ℕ
  pub title : Text
  pub content : Text
  pub source_path : Text

-- `DocumentNavigator`, less its document and the map of ids, which never change.
pub record Navigator : Type 0 where
  pub cursor : ℕ
  pub breadcrumb : List Text
  pub history : List ℕ
  pub visited : List ℕ
  pub collected : List ℕ
  pub evidence : List CollectedEvidence

pub data NavError : Type 0 where
  bad_prefix : Text → NavError
  invalid_id : Text → NavError
  unknown_id : ℕ → NavError
  target_not_found : Text → NavError
  at_root : NavError
  no_parent : NavError
  no_previous : NavError
  node_not_found : NavError

abbrev pub member : List ℕ → ℕ → Bool
member xs x = any (λ y. y == x) xs

-- `HashSet::insert`
abbrev pub set_insert : List ℕ → ℕ → List ℕ
set_insert xs x = if member xs x then xs else x ∷ xs

abbrev pub root_name : Text
root_name = b'r' ∷ b'o' ∷ b'o' ∷ b't' ∷ []

abbrev pub unknown_name : Text
unknown_name = b'u' ∷ b'n' ∷ b'k' ∷ b'n' ∷ b'o' ∷ b'w' ∷ b'n' ∷ []

abbrev pub separator : Text
separator = b' ' ∷ b'/' ∷ b' ' ∷ []

-- `breadcrumb.join(" / ")`
abbrev pub join : List Text → Text
join [] = []
join (x ∷ []) = x
join (x ∷ y ∷ xs) = x ++ (separator ++ join (y ∷ xs))

-- One more digit, where the number stays below 2 to the 64.
abbrev pub digit : ℕ → ℕ → Option ℕ
digit n c =
    if leb b'0' c && (leb c b'9' && ltb (n * 10 + (c - b'0')) 18446744073709551616)
    then some (n * 10 + (c - b'0'))
    else none

unfoldable pub digits : Option ℕ → Text → Option ℕ
digits none text = none
digits (some n) [] = some n
digits (some n) (c ∷ text) = digits (digit n c) text

-- `str::parse::<u64>`: at least one digit, after a plus sign if there is one.
unfoldable pub parse_u64 : Text → Option ℕ
unfolding digits
parse_u64 [] = none
parse_u64 (c ∷ []) = digits (some 0) (c ∷ [])
parse_u64 (c ∷ d ∷ text) =
    if c == b'+' then digits (some 0) (d ∷ text) else digits (some 0) (c ∷ d ∷ text)

abbrev pub known_id : Doc → Text → Option ℕ → Result ℕ NavError
known_id doc s none = err (invalid_id s)
known_id doc s (some num) = if member doc.traverse num then ok num else err (unknown_id num)

unfoldable pub parse_id : Doc → Text → Result ℕ NavError
unfolding parse_u64
parse_id doc [] = err (bad_prefix [])
parse_id doc (c ∷ s) =
    if c == b'n' then known_id doc (c ∷ s) (parse_u64 s) else err (bad_prefix (c ∷ s))

unfoldable pub resolve_optional_id : Doc → Navigator → Option Text → Result ℕ NavError
unfolding parse_id
resolve_optional_id doc nav none = ok nav.cursor
resolve_optional_id doc nav (some s) = parse_id doc s
