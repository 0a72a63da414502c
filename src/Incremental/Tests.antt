-- ===== src/Incremental/Tests.antt =====
-- A document that was compiled with another configuration.
use vectorless.Base.{ℕ, String, none, some, refl}
use vectorless.Pipeline.Context.{DocumentFormat}
use vectorless.Incremental.{DocumentMeta, Document, resolve_action}
use vectorless.Incremental.Decision.{Decision, resolve_action-Decision}

abbrev meta_of : String → DocumentMeta
meta_of fp = record { content_fingerprint = fp; logic_fingerprint = "old"; processing_version = 1 }

abbrev stored : Document ℕ
stored = record {
  doc_id = "doc";
  name = "report";
  tree = 5;
  summary = "";
  page_count = none;
  meta = some (meta_of "content");
}

resolve_action-Decision_example :
    Decision stored DocumentFormat.markdown (meta_of "content") "content" 1 "new" (
      resolve_action
        (λ (bytes : String). bytes)
        (λ (options : String). 1)
        (λ options. options)
        "content"
        stored
        "new"
        DocumentFormat.markdown)
resolve_action-Decision_example =
    resolve_action-Decision (λ (bytes : String). bytes) (λ (options : String). 1)
      (λ options. options) "content" stored "new" DocumentFormat.markdown (meta_of "content") refl
