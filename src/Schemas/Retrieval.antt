-- ===== src/Schemas/Retrieval.antt =====
-- schemas/retrieval.py and `ChunkRecord` of src/auditflow/ingest/models.py
use audit_flow_ai.Base.{ℕ, String, Bool, Option, List}
use audit_flow_ai.Base.Dict.{Dict}

pub record ChunkRecord : Type 0 where
  pub chunk_id : String
  pub document_id : String
  pub chunk_index : ℕ
  pub raw_chunk_text : String
  pub embedding_text : String
  pub content_hash : String
  pub is_preamble : Bool

pub record ChunkMatch (Float : Type 0) : Type 0 where
  pub chunk_id : String
  pub document_id : String
  pub raw_chunk_text : String
  pub score : Float

pub record ConsistencyReport (Float : Type 0) : Type 0 where
  pub top_contract : Option String
  pub concentration : Float
  pub avg_top_score : Float
  pub best_score : Option Float
  pub margin : Float
  pub is_confident : Bool
  pub contract_breakdown : Dict ℕ

pub record RetrievalContext (Float : Type 0) : Type 0 where
  pub chunks : List (ChunkMatch Float)
  pub consistency : ConsistencyReport Float
