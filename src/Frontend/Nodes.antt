-- ===== src/Frontend/Nodes.antt =====
-- RawNode of crates/vectorless-compiler/src/parse/types.rs and ThinningConfig of
-- crates/vectorless-compiler/src/config.rs.
use vectorless.Base.{ℕ, Bool, true, false, not, String, Option, none, some}

pub record RawNode : Type 0 where
  pub title : String
  pub content : String
  pub level : ℕ
  pub line_start : ℕ
  pub line_end : ℕ
  pub page : Option ℕ
  pub token_count : Option ℕ
  pub total_token_count : Option ℕ

abbrev pub default_node : RawNode
default_node = record {
  title = "";
  content = "";
  level = 0;
  line_start = 1;
  line_end = 1;
  page = none;
  token_count = none;
  total_token_count = none;
}

-- `RawNode::new`
abbrev pub new_node : String → RawNode
new_node title = record default_node { title = title }

abbrev pub with_content : RawNode → String → RawNode
with_content node content = record node { content = content }

abbrev pub with_level : RawNode → ℕ → RawNode
with_level node level = record node { level = level }

abbrev pub with_lines : RawNode → ℕ → ℕ → RawNode
with_lines node start end = record node { line_start = start; line_end = end }

abbrev pub with_page : RawNode → ℕ → RawNode
with_page node page = record node { page = some page }

-- `RawNode::has_content`, where `is_blank` says that a trimmed text is empty.
abbrev pub has_content : (String → Bool) → RawNode → Bool
has_content is_blank node = not (is_blank node.content)

pub record ThinningConfig : Type 0 where
  pub enabled : Bool
  pub threshold : ℕ
  pub merge_content : Bool

-- `ThinningConfig::default`, which `disabled` returns.
abbrev pub default_thinning : ThinningConfig
default_thinning = record { enabled = false; threshold = 500; merge_content = true }

-- `ThinningConfig::enabled`
abbrev pub enabled_thinning : ℕ → ThinningConfig
enabled_thinning threshold = record { enabled = true; threshold = threshold; merge_content = true }

abbrev pub with_threshold : ThinningConfig → ℕ → ThinningConfig
with_threshold c threshold = record c { threshold = threshold }

abbrev pub with_merge_content : ThinningConfig → Bool → ThinningConfig
with_merge_content c merge = record c { merge_content = merge }

-- `unwrap_or(0)`
abbrev pub or_zero : Option ℕ → ℕ
or_zero none = 0
or_zero (some n) = n
