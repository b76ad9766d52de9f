-- ===== src/Chunking/Preflight/Safety.antt =====
-- When the preflight check says that the index may be built.
use audit_flow_ai.Base.{Bool, true, ◌&&◌, ◌≡◌, ap₂, ◌∙◌, Option, List, is_empty, arith}
use audit_flow_ai.Base.Dict.{Dict}
use audit_flow_ai.Chunking.Records.{Chunker, Contract, DocumentIdentity}
use audit_flow_ai.Chunking.Preflight.{titles, check_titles, check_chunking, print_report}
use audit_flow_ai.Chunking.Preflight.Clashes.{no_clash, check_titles_iff}
use audit_flow_ai.Chunking.Preflight.Ids.{IsColonFree, check_chunking_no_collision}

and_true : (b : Bool) → b && true ≡ b
and_true b = ground arith

module _ (k : Chunker) (laws : IsColonFree k) where
  -- The preflight check, run on the titles and on the chunks, says that it is safe to build the index
  -- exactly where no two contracts that have a context have different titles with one document id, as long
  -- as digests have no colon and lower case makes none.
  pub print_report_iff :
      (contracts : List Contract) (identities : Option (Dict DocumentIdentity))
      → print_report (check_titles k contracts) (check_chunking k contracts identities)
        ≡ no_clash k (titles k contracts)
  unfolding print_report
  print_report_iff contracts identities =
      ap₂ (λ b cs. b && is_empty cs) (check_titles_iff k contracts)
        (check_chunking_no_collision k laws contracts identities)
      ∙ and_true (no_clash k (titles k contracts))
