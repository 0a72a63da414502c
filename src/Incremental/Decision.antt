-- ===== src/Incremental/Decision.antt =====
-- When a source is skipped, indexed in full or updated.
use vectorless.Base.{
  ℕ, Bool, true, false, String, some, ◌&&◌, not, str_eq, if◌then◌else◌, ◌≡◌, ◌≢◌, ◌⊎◌, ◌≤◌, ◌<◌,
  inl, inr, refl, sym, ◌∙◌, arith, eq_iff, subst,
}
use vectorless.Pipeline.Context.{DocumentFormat}
use vectorless.Incremental.{
  DocumentMeta, Document, IndexAction, skip, full_index, incremental_update, needs_reprocessing,
  action_for, resolve_stored, resolve_action, skip_info,
}

-- Nothing of a stored document is out of date: it has a processing version, not an older one than
-- the current, and the bytes have the fingerprint that was stored.
pub record IsFresh (m : DocumentMeta) (current_fp : String) (version : ℕ) : Type 0 where
  pub processed : 0 < m.processing_version
  pub current : version ≤ m.processing_version
  pub same_content : m.content_fingerprint ≡ current_fp

IsFresh-needs_reprocessing :
    (m : DocumentMeta) (fp : String) (version : ℕ)
    → IsFresh m fp version
    → needs_reprocessing m fp version ≡ false
unfolding needs_reprocessing
IsFresh-needs_reprocessing m fp version h =
    let same = (eq_iff m.content_fingerprint fp).1 h.same_content in
    ground (arith, h.processed, h.current, same)

needs_reprocessing-IsFresh :
    (m : DocumentMeta) (fp : String) (version : ℕ)
    → needs_reprocessing m fp version ≡ false
    → IsFresh m fp version
unfolding needs_reprocessing
needs_reprocessing-IsFresh m fp version h = record {
  processed = ground (arith, h);
  current = ground (arith, h);
  same_content = (eq_iff m.content_fingerprint fp).0 (ground (arith, h));
}

stale :
    (m : DocumentMeta) (fp : String) (version : ℕ)
    → needs_reprocessing m fp version ≡ true
    → ¬ (IsFresh m fp version)
stale m fp version h fresh = true≢false (sym h ∙ IsFresh-needs_reprocessing m fp version fresh)
  where
    true≢false : true ≢ false
    true≢false p = cc

differs : (a b : String) → str_eq a b ≡ false → a ≢ b
differs a b h e = false≢true (sym h ∙ (eq_iff a b).1 e)
  where
    false≢true : false ≢ true
    false≢true p = cc

module _ {Tree : Type 0} where
  -- The decision for a document with metadata, from what is fresh and which configuration built it.
  pub data Decision (stored : Document Tree) (format : DocumentFormat) (m : DocumentMeta)
      (fp : String) (version : ℕ) (logic : String) : IndexAction Tree → Type 0 where
    skips :
        IsFresh m fp version
        → Decision stored format m fp version logic (skip (skip_info stored format))
    reindexes :
        ¬ (IsFresh m fp version)
        → m.logic_fingerprint ≢ logic
        → m.logic_fingerprint ≢ ""
        → Decision stored format m fp version logic (full_index (some stored.doc_id))
    updates :
        ¬ (IsFresh m fp version)
        → (m.logic_fingerprint ≡ logic) ⊎ (m.logic_fingerprint ≡ "")
        → Decision stored format m fp version logic (incremental_update stored.tree stored.doc_id)

  action_for-Decision :
      (stored : Document Tree) (format : DocumentFormat) (fp : String) (version : ℕ)
      (logic : String) (m : DocumentMeta)
      → Decision stored format m fp version logic (action_for stored format fp version logic m)
  unfolding action_for
  action_for-Decision stored format fp version logic m =
      go (needs_reprocessing m fp version) (str_eq m.logic_fingerprint logic)
        (str_eq m.logic_fingerprint "") refl refl refl
    where
      go :
          (a b c : Bool)
          → needs_reprocessing m fp version ≡ a
          → str_eq m.logic_fingerprint logic ≡ b
          → str_eq m.logic_fingerprint "" ≡ c
          → Decision stored format m fp version logic (
              if not a
              then skip (skip_info stored format)
              else if not b && not c
              then full_index (some stored.doc_id)
              else incremental_update stored.tree stored.doc_id)
      go false b c h k l = skips (needs_reprocessing-IsFresh m fp version h)
      go true false false h k l =
          reindexes (stale m fp version h) (differs m.logic_fingerprint logic k)
            (differs m.logic_fingerprint "" l)
      go true true c h k l =
          updates (stale m fp version h) (inl ((eq_iff m.logic_fingerprint logic).0 k))
      go true false true h k l =
          updates (stale m fp version h) (inr ((eq_iff m.logic_fingerprint "").0 l))

module _ {Tree Bytes Options : Type 0} where
  -- The action for a source whose stored document has metadata: it is skipped exactly if the
  -- content is unchanged and the processing version not out of date, whatever the configuration;
  -- otherwise it is indexed in full exactly if a logic fingerprint is stored and differs from the
  -- one of the options, and updated from the stored tree if not.
  pub resolve_action-Decision :
      (from_bytes : Bytes → String) (version : Options → ℕ) (logic : Options → String)
      (file_bytes : Bytes) (stored : Document Tree) (options : Options) (format : DocumentFormat)
      (m : DocumentMeta)
      → stored.meta ≡ some m
      → Decision stored format m
          (from_bytes file_bytes)
          (version options)
          (logic options)
          (resolve_action from_bytes version logic file_bytes stored options format)
  unfolding resolve_action resolve_stored
  resolve_action-Decision from_bytes version logic file_bytes stored options format m h =
      let fp = from_bytes file_bytes in
      subst
        (λ o.
          Decision stored format m fp (version options) (logic options)
            (resolve_stored stored format fp (version options) (logic options) o))
        (sym h) (action_for-Decision stored format fp (version options) (logic options) m)
