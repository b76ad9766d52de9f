-- ===== src/Tests/Retrieving.antt =====
-- A query over a corpus of two documents.
use audit_flow_ai.Base.{ℕ, String, List, ◌≡◌, refl, none, some, [], ◌∷◌, ◌+◌, ◌/◌, ltb, arith}
use audit_flow_ai.Base.Dict.{get, put, keys}
use audit_flow_ai.Base.Sorting.{IsOrder, sort_desc, insert_ranked}
use audit_flow_ai.Exec.{ok, Exec, After}
use audit_flow_ai.Schemas.Retrieval.{ChunkRecord, ChunkMatch}
use audit_flow_ai.Retrieval.Fusion.{Fusion, reciprocal_rank_fusion, reciprocal_rank_fusion-Fusion}
use audit_flow_ai.Retrieval.Fusion.{add_lists, add_ranked, reward}
use audit_flow_ai.Retrieval.Consistency.{check_docement_consistency}
use audit_flow_ai.Retrieval.Consistency.Report.{Checked, check_docement_consistency-Checked}
use audit_flow_ai.Retrieval.Caches.{Engines, Caches, reload_index_from_disk, get_all_chunks}
use audit_flow_ai.Retrieval.Caches.Coherence.{IsCoherent}
use audit_flow_ai.Retrieval.Caches.Reload.{Reloaded, reload_index_from_disk-Reloaded}
use audit_flow_ai.Retrieval.Context.{get_verification_context}
use audit_flow_ai.Retrieval.Context.Corpus.{Context, get_verification_context-Context}
use audit_flow_ai.Retrieval.Context.Runs.{Call, Run, started, run-IsCoherent}
use audit_flow_ai.Schemas.Floats.{Floats}
use audit_flow_ai.Schemas.Generation.{GenerationResult}
use audit_flow_ai.Retry.{get_scoped_context}
use audit_flow_ai.Retrieval.Scope.{retrieval_layer, Grounded, get_scoped_context-Grounded}
use audit_flow_ai.Tests.Fixtures.{ascii, scores, preamble}

abbrev points : Floats
points = record scores { decimal = λ a k. a; div = λ a b. 1000 / b }

scores-IsOrder : IsOrder ltb
scores-IsOrder = record { asym = λ a b h. ground arith; trans = λ a b c h k. ground arith }

abbrev other_chunk : ChunkRecord
other_chunk = record preamble { chunk_id = "b-0"; document_id = "b" }

abbrev engines : Engines points
engines = record {
  World = ℕ;
  tables = ascii;
  Embedder = ℕ;
  Store = ℕ;
  Okapi = ℕ;
  load_embedder = λ n. (ok 0, n + 1);
  load_local = λ e n. (ok (some 0), n + 1);
  read_corpus = λ n. (ok (some (("a-0", preamble) ∷ ("b-0", other_chunk) ∷ [])), n + 1);
  okapi = λ texts n. (ok 0, n + 1);
  similarity_search = λ store query k n. (ok ("b-0" ∷ "gone" ∷ []), n + 1);
  get_scores = λ index words n. (ok (2 ∷ 7 ∷ []), n + 1);
  rerank = λ pairs n. (ok (5 ∷ 3 ∷ []), n + 1);
}

-- "b" is in both lists.
fusion_runs :
    reciprocal_rank_fusion points 60 (("a" ∷ "b" ∷ []) ∷ ("b" ∷ "c" ∷ []) ∷ [])
    ≡ "b" ∷ "a" ∷ "c" ∷ []
unfolding reciprocal_rank_fusion add_lists add_ranked reward sort_desc insert_ranked put get
fusion_runs = refl

reciprocal_rank_fusion-Fusion_example :
    Fusion points 60
      (("a" ∷ "b" ∷ []) ∷ ("b" ∷ "c" ∷ []) ∷ [])
      (reciprocal_rank_fusion points 60 (("a" ∷ "b" ∷ []) ∷ ("b" ∷ "c" ∷ []) ∷ []))
reciprocal_rank_fusion-Fusion_example =
    reciprocal_rank_fusion-Fusion points scores-IsOrder 60
      (("a" ∷ "b" ∷ []) ∷ ("b" ∷ "c" ∷ []) ∷ [])

check_docement_consistency-Checked_example :
    Checked points 6 3 ((preamble, 5) ∷ (other_chunk, 4) ∷ (preamble, 2) ∷ []) (
      check_docement_consistency points ((preamble, 5) ∷ (other_chunk, 4) ∷ (preamble, 2) ∷ []) 6 3)
check_docement_consistency-Checked_example =
    check_docement_consistency-Checked points 6 3 scores-IsOrder
      ((preamble, 5) ∷ (other_chunk, 4) ∷ (preamble, 2) ∷ [])

-- a model that gives no claim
abbrev silent : String → List (ChunkMatch ℕ) → Exec ℕ GenerationResult
silent question chunks n = (ok (record { claims = []; raw_answer = none }), n)

abbrev loaded : Caches engines
loaded = record {
  embedder = some 0;
  faiss_index = some none;
  bm25_index = some [];
  bm25_cache = some ([], 0);
  engines = 0;
}

reload_index_from_disk-Reloaded_example :
    Reloaded engines loaded (reload_index_from_disk engines loaded)
reload_index_from_disk-Reloaded_example = reload_index_from_disk-Reloaded engines 0 loaded refl

get_verification_context-Context_example :
    Context engines (get_verification_context engines "the fee" loaded)
unfolding keys
get_verification_context-Context_example =
    get_verification_context-Context engines scores-IsOrder "the fee" loaded refl

run-IsCoherent_example :
    IsCoherent engines
      (reload_index_from_disk engines (get_all_chunks engines (started engines 0)).1).1
run-IsCoherent_example =
    run-IsCoherent engines scores-IsOrder 0
      (Run.next (Run.next Run.here Call.all_chunks) Call.reload)

get_scoped_context-Grounded_example :
    After
      (IsCoherent engines)
      (Grounded engines)
      (get_scoped_context points (retrieval_layer engines silent) "the fee" "a" 3 none loaded)
unfolding keys
get_scoped_context-Grounded_example =
    get_scoped_context-Grounded engines scores-IsOrder silent "the fee" "a" 3 loaded refl
