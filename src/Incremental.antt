-- ===== src/Incremental.antt =====
-- What to do with a source that was compiled before: `resolve_action` of
-- crates/vectorless-compiler/src/incremental/resolver.rs and `DocumentMeta::needs_reprocessing` of
-- crates/vectorless-document/src/understanding.rs.
--
-- Fingerprints (BLAKE2b, in hexadecimal) are parameters, as are the types of source bytes and of
-- trees. A stored document has the fields that the decision reads.
pub mod Decision
pub mod Detector
pub mod Subtree
pub mod Fingerprint
mod DetectorTests
mod Tests
use vectorless.Base.{
  ℕ, Bool, true, false, String, Option, none, some, ◌&&◌, ◌==◌, ltb, not, str_eq, if◌then◌else◌,
}
use vectorless.Pipeline.Context.{DocumentFormat}

pub record DocumentMeta : Type 0 where
  pub content_fingerprint : String
  pub logic_fingerprint : String
  pub processing_version : ℕ

unfoldable pub needs_reprocessing : DocumentMeta → String → ℕ → Bool
needs_reprocessing m current_fp current_version =
    if m.processing_version == 0
    then true
    else if ltb m.processing_version current_version
    then true
    else if not (str_eq m.content_fingerprint current_fp)
    then true
    else false

module _ (Tree : Type 0) where
  pub record Document : Type 0 where
    pub doc_id : String
    pub name : String
    pub tree : Tree
    pub summary : String
    pub page_count : Option ℕ
    pub meta : Option DocumentMeta

  pub record SkipInfo : Type 0 where
    pub doc_id : String
    pub name : String
    pub format : DocumentFormat
    pub description : Option String
    pub page_count : Option ℕ

  pub data IndexAction : Type 0 where
    skip : SkipInfo → IndexAction
    full_index : Option String → IndexAction
    incremental_update : Tree → String → IndexAction

module _ {Tree : Type 0} where
  abbrev pub skip_info : Document Tree → DocumentFormat → SkipInfo Tree
  skip_info stored format = record {
    doc_id = stored.doc_id;
    name = stored.name;
    format = format;
    description = if str_eq stored.summary "" then none else some stored.summary;
    page_count = stored.page_count;
  }

  -- The layers, for a document with metadata.
  unfoldable pub action_for :
      Document Tree → DocumentFormat → String → ℕ → String → DocumentMeta → IndexAction Tree
  unfolding needs_reprocessing
  action_for stored format current_fp version current_logic m =
      if not (needs_reprocessing m current_fp version)
      then skip (skip_info stored format)
      else if not (str_eq m.logic_fingerprint current_logic) && not (str_eq m.logic_fingerprint "")
      then full_index (some stored.doc_id)
      else incremental_update stored.tree stored.doc_id

  -- The match on the stored metadata, with the fingerprint of the bytes, the processing version and
  -- the logic fingerprint of the options.
  unfoldable pub resolve_stored :
      Document Tree → DocumentFormat → String → ℕ → String → Option DocumentMeta → IndexAction Tree
  unfolding action_for
  resolve_stored stored format current_fp version current_logic none =
      full_index (some stored.doc_id)
  resolve_stored stored format current_fp version current_logic (some m) =
      action_for stored format current_fp version current_logic m

module _ {Tree Bytes Options : Type 0} where
  unfoldable pub resolve_action :
      (Bytes → String)
      → (Options → ℕ)
      → (Options → String)
      → Bytes
      → Document Tree
      → Options
      → DocumentFormat
      → IndexAction Tree
  unfolding resolve_stored
  resolve_action from_bytes version logic file_bytes stored options format =
      resolve_stored stored format (from_bytes file_bytes) (version options) (logic options)
        stored.meta
