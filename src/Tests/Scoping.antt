-- ===== src/Tests/Scoping.antt =====
-- Contexts of one document, the retry with a reformulated query, and the words of a question.
use audit_flow_ai.Base.{
  ℕ, ◌≡◌, ◌+◌, ◌≤◌, ◌↔◌, refl, true, false, none, some, List, [], ◌∷◌, String, All, arith,
}
use audit_flow_ai.Base.Dict.{contains}
use audit_flow_ai.Base.Text.{
  is_blank, count, split, split_from, push_word, replace, has_infix, has_prefix,
}
use audit_flow_ai.Exec.{ok}
use audit_flow_ai.Pipeline.{
  is_active, scan_words, scan_names, scan_docs, mentions_different_contract,
}
use audit_flow_ai.Pipeline.Mentions.{Elsewhere, mentions_different_contract-Elsewhere}
use audit_flow_ai.Retry.{
  reformulation_template, search_word, reformulate_query, matching, append_first, with_preamble,
  max_score, first_context, get_scoped_context, generate_with_bounded_retry,
}
use audit_flow_ai.Retry.Bounded.{Metered, fresh, generate_with_bounded_retry_cost}
use audit_flow_ai.Retry.Scoped.{IsScoped, IsGiven, IsDrawn, get_scoped_context-IsDrawn}
use audit_flow_ai.Retry.Words.{WordAt, IsFirst, search_word_iff, reformulate_query_lem}
use audit_flow_ai.Schemas.Retrieval.{ChunkRecord, RetrievalContext}
use audit_flow_ai.Tests.Fixtures.{scores, layer, chunk, ascii, corpus}

-- the context that the model is given on document "a"
abbrev scoped : RetrievalContext ℕ
scoped = record {
  chunks =
      chunk "a-1" "a"
      ∷ record { chunk_id = "a-0"; document_id = "a"; raw_chunk_text = "between"; score = 0 }
      ∷ [];
  consistency = record {
    top_contract = some "a";
    concentration = 1;
    avg_top_score = 0;
    best_score = some 7;
    margin = 0;
    is_confident = true;
    contract_breakdown = [];
  };
}

scoped_runs : (get_scoped_context scores layer "which fee?" "a" 5 none 0).0 ≡ ok (some scoped)
unfolding get_scoped_context first_context matching with_preamble append_first max_score
scoped_runs = refl

get_scoped_context-IsDrawn_example :
    IsScoped scores "a" 5 scoped
    × ((full : RetrievalContext ℕ) × (all_chunks : List ChunkRecord) × (w' : ℕ) × IsGiven scores
          layer "which fee?" "a" 5 none 0 full
        × ((layer.get_all_chunks w').0 ≡ ok all_chunks)
        × All (IsDrawn scores "a" full.chunks all_chunks) scoped.chunks)
get_scoped_context-IsDrawn_example =
    get_scoped_context-IsDrawn scores layer "which fee?" "a" 5 none 0 scoped scoped_runs

generations : Metered scores layer (λ n. n) 0 1 0
generations = record {
  retrieval = λ q w. omega arith;
  generation = λ q chunks w. omega arith;
  corpus = λ w. omega arith;
}

generate_with_bounded_retry_cost_example :
    (generate_with_bounded_retry scores layer "the governing law?" "a" none 0).1
    ≤ 0 + (fresh {A = RetrievalContext ℕ} none 0 + 0) + (1 + 1) + (0 + 0)
generate_with_bounded_retry_cost_example =
    generate_with_bounded_retry_cost scores layer (λ n. n) 0 1 0 generations "the governing law?"
      "a" none 0

search_word_iff_example :
    (search_word ascii "signed" "who designed it?" ≡ true)
    ↔ WordAt ascii false "signed" "who designed it?"
search_word_iff_example = search_word_iff ascii "signed" "who designed it?"

reformulate_query_lem_example :
    ((phrasing : String)
      → reformulate_query ascii "who designed it?" ≡ some phrasing
      → IsFirst ascii "who designed it?" reformulation_template phrasing)
    × (reformulate_query ascii "who designed it?" ≡ none
        → All (λ e. ¬ WordAt ascii false e.0 "who designed it?") reformulation_template)
reformulate_query_lem_example = reformulate_query_lem ascii "who designed it?"

mention_runs :
    mentions_different_contract ascii "what does borealis pay" corpus.all_identities (some "a")
    ≡ some "b"
unfolding mentions_different_contract scan_docs scan_names scan_words is_active split split_from
    push_word replace has_infix has_prefix is_blank count contains
mention_runs = refl

mentions_different_contract-Elsewhere_example : Elsewhere (some "a") "b" corpus.all_identities
mentions_different_contract-Elsewhere_example =
    mentions_different_contract-Elsewhere ascii "what does borealis pay" corpus.all_identities
      (some "a") "b" mention_runs
