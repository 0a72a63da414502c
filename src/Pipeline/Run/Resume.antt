-- ===== src/Pipeline/Run/Resume.antt =====
-- What a run finds of the checkpoints that earlier runs saved.
use vectorless.Base.{List, Option, String, [], some, ◌∷◌, ◌≡◌, ◌≢◌}
use vectorless.Pipeline.Context.{CompileContext, Kind, PipelineCheckpoint}
use vectorless.Pipeline.State.{Services, save_checkpoint}

module _ {W : Type 0} {Part : Kind → Type 0} where
  -- The checkpoints of several contexts, one after another.
  abbrev pub save_all : Services W Part → W → List (CompileContext Part) → W
  save_all services w [] = w
  save_all services w (ctx ∷ contexts) = save_all services (save_checkpoint services w ctx) contexts

  -- A file of a document holds what it is for that document only.
  pub record ManagerLaws (services : Services W Part) : Type 0 where
    pub other_document :
        (w : W) (dir id other : String) (c : PipelineCheckpoint Part)
        → id ≢ other
        → services.manager.load (services.manager.save w dir id c) dir other
          ≡ services.manager.load w dir other

  -- The contexts of earlier runs, which had identifiers and a checkpoint directory.
  pub data AllEarlier (services : Services W Part) (dir : String)
      : List (CompileContext Part) → Type 0 where
    no_more : AllEarlier services dir []
    one_more :
        {ctx : CompileContext Part} {contexts : List (CompileContext Part)}
        → ctx.options.checkpoint_dir ≡ some dir
        → ctx.doc_id ≢ services.fresh_id
        → AllEarlier services dir contexts
        → AllEarlier services dir (ctx ∷ contexts)

  -- A first context has the fresh identifier and the directory of the options.
  abbrev IsFirstContext : Services W Part → Option String → CompileContext Part → Type 0
  IsFirstContext services dir ctx =
      (ctx.doc_id ≡ services.fresh_id) × (ctx.options.checkpoint_dir ≡ dir)
