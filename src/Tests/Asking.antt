-- ===== src/Tests/Asking.antt =====
-- A question that the session cannot place, and its answer once a document is selected.
use audit_flow_ai.Base.{ℕ, ◌≡◌, refl, none, some, [], ◌∷◌}
use audit_flow_ai.Base.Dict.{get, keys, contains}
use audit_flow_ai.Base.Text.{
  is_blank, count, strip, strip_left, strip_right, split, split_from, push_word, replace, has_infix,
  has_prefix,
}
use audit_flow_ai.Base.{Option, String, true, false, ◌==◌, eq_refl, arith}
use audit_flow_ai.Base.Dict.{Dict, put, pop, get-put, get-pop}
use audit_flow_ai.Attempt.{outcome}
use audit_flow_ai.Exec.{ok, raised}
use audit_flow_ai.JsonExtraction.{
  from_first, upto_last, brace_span, unfence, extract_text, parse_llm_json,
}
use audit_flow_ai.Pipeline.{
  Run, is_active, scan_words, scan_names, scan_docs, mentions_different_contract,
  looks_like_contract_selection, ends_asking, answer_with_retry, verify, respond, resolved,
  resolve_pending_selection, ask_which, try_active, try_mentioned, handle_low_confidence, routed,
  fresh_question, ask_with, ask,
}
use audit_flow_ai.Pipeline.Answers.{Reply, ask-Reply}
use audit_flow_ai.Retry.{
  needs_retry, matching, append_first, with_preamble, max_score, first_context, get_scoped_context,
  after_first, first_pass, generate_with_bounded_retry,
}
use audit_flow_ai.Schemas.Session.{answer_with, clarify, status_value}
use audit_flow_ai.Session.State.{new_state}
use audit_flow_ai.Tests.Fixtures.{scores, vague_layer, judge, corpus, claim, support}
use audit_flow_ai.Session.Store.{
  Redis, key, from_json, get_session, set_session, ttl_of, push_recent_turn, enqueue_history_write,
  summarize_claims, count_verdicts,
}
use audit_flow_ai.Session.Endpoint.{
  CurrentUser, Server, ask_endpoint, served, locked, release_after, turn, ask_with_state,
}
use audit_flow_ai.Session.Endpoint.Keys.{lock_key, recent_key}
use audit_flow_ai.Session.Endpoint.Kept.{IsStore}
use audit_flow_ai.Session.Endpoint.Stored.{Answered, ask_endpoint-Answered, ask_endpoint-other}
use audit_flow_ai.Schemas.Errors.{other}
use audit_flow_ai.Verify.{
  source_text, pre_llm_verdict, verified, ask_judge, judge_loop, verify_claim, gather,
  verify_all_claims,
}

abbrev start : Run ℕ ℕ
start = record { session = new_state; below = 1; bench = 0 }

-- The session once "a" and "b" are offered.
abbrev offered : Run ℕ ℕ
offered = record start {
  session = record {
    active_contract = none;
    pending_question = some "which fee?";
    pending_candidates = "a" ∷ "b" ∷ [];
  };
}

question_runs :
    ask scores vague_layer judge corpus "which fee?" start
    ≡ (ok (clarify ("a" ∷ "b" ∷ [])), offered)
unfolding ask ask_with fresh_question routed handle_low_confidence try_mentioned try_active
    ask_which mentions_different_contract scan_docs scan_names scan_words is_active split split_from
    push_word replace has_infix has_prefix is_blank count contains keys
question_runs = refl

abbrev selected : Run ℕ ℕ
selected = record {
  session = record { active_contract = some "a"; pending_question = none; pending_candidates = [] };
  below = 2;
  bench = 2;
}

selection_runs :
    ask scores vague_layer judge corpus " a " offered
    ≡ (ok (answer_with (verified claim support ∷ []) "a"), selected)
unfolding ask ask_with looks_like_contract_selection ends_asking resolve_pending_selection resolved
    answer_with_retry respond verify strip strip_left strip_right split split_from push_word
    contains is_blank generate_with_bounded_retry first_pass after_first get_scoped_context
    first_context matching with_preamble append_first max_score needs_retry verify_all_claims gather
    verify_claim pre_llm_verdict ask_judge source_text judge_loop outcome get parse_llm_json
    extract_text brace_span unfence from_first upto_last has_prefix
selection_runs = refl

ask-Reply_example :
    Reply scores vague_layer judge corpus " a "
      (some "which fee?")
      ("a" ∷ "b" ∷ [])
      (answer_with (verified claim support ∷ []) "a")
      selected
ask-Reply_example =
    ask-Reply scores vague_layer judge corpus " a " offered selected _ selection_runs

-- Redis, with keys that do not expire, and one session in JSON.
abbrev redis : Redis
redis = record {
  World = Dict String;
  get_key = λ k w. (ok (get k w), w);
  set_key = λ k v n w. (ok tt, put k v w);
  delete_key = λ k w. (ok tt, pop k w);
  acquire = λ k n t w. (ok true, put k "held" w);
  release = λ k w. (ok tt, pop k w);
  push = λ k e n t w. (ok tt, put k e w);
  enqueue = λ j w. (raised other, w);
  dumps = λ state. "answered";
  loads = λ raw. some offered.session;
  dumps_turn = λ question status d. question;
}

redis_reads : (k : String) (w : Dict String) (o : Option String) → ok (get k w) ≡ ok o → o ≡ get k w
redis_reads k w o h = ground arith

redis_writes : (k v : String) (w : Dict String) → get k (put k v w) ≡ some v
redis_writes k v w = ground (arith, get-put k k v w, eq_refl k)

redis_leaves :
    (k v : String) (w : Dict String) (j : String) → (k == j) ≡ false → get j (put k v w) ≡ get j w
redis_leaves k v w j apart = ground (arith, get-put k j v w)

redis_drops :
    (k : String) (w : Dict String) (j : String) → (k == j) ≡ false → get j (pop k w) ≡ get j w
redis_drops k w j apart = ground (arith, get-pop k j w)

abbrev redis_laws : IsStore redis
redis_laws = record {
  view = λ w. w;
  get_ok = redis_reads;
  get_view = λ k w. refl;
  set_ok = λ k v n w h. redis_writes k v w;
  set_other = λ k v n w. redis_leaves k v w;
  acquire_other = λ k n t w. redis_leaves k "held" w;
  release_other = redis_drops;
  push_other = λ k e n t w. redis_leaves k e w;
  enqueue_view = λ j w. refl;
}

abbrev ann : CurrentUser
ann = record { username = "ann"; role = "viewer" }

abbrev waiting : Server (Dict String) ℕ ℕ
waiting = record {
  store = ("session:ann", "offered") ∷ ("session:bob", "bob's") ∷ [];
  below = 1;
  bench = 0;
}

abbrev answered_server : Server (Dict String) ℕ ℕ
answered_server = record {
  store = ("session:ann", "answered") ∷ ("session:bob", "bob's") ∷ ("recent:ann", "a") ∷ [];
  below = 2;
  bench = 2;
}

-- The history cannot be queued, and the answer is given all the same.
endpoint_runs :
    ask_endpoint redis scores vague_layer judge corpus "a" ann waiting
    ≡ (ok (answer_with (verified claim support ∷ []) "a"), answered_server)
unfolding ask_endpoint served locked release_after turn ask_with_state get_session set_session
    from_json ttl_of push_recent_turn enqueue_history_write summarize_claims count_verdicts
    status_value put pop ask ask_with looks_like_contract_selection ends_asking
    resolve_pending_selection resolved answer_with_retry respond verify strip strip_left strip_right
    split split_from push_word contains is_blank generate_with_bounded_retry first_pass after_first
    get_scoped_context first_context matching with_preamble append_first max_score needs_retry
    verify_all_claims gather verify_claim pre_llm_verdict ask_judge source_text judge_loop outcome
    get parse_llm_json extract_text brace_span unfence from_first upto_last has_prefix
endpoint_runs = refl

ask_endpoint-Answered_example :
    Answered redis redis_laws scores vague_layer judge corpus "a" ann
      (answer_with (verified claim support ∷ []) "a")
      waiting
      answered_server
ask_endpoint-Answered_example =
    ask_endpoint-Answered redis redis_laws scores vague_layer judge corpus "a" ann waiting
      answered_server _ endpoint_runs

keys_differ : (key "ann" == "session:bob") ≡ false
keys_differ = refl

lock_differs : (lock_key "ann" == "session:bob") ≡ false
lock_differs = refl

recent_differs : (recent_key "ann" == "session:bob") ≡ false
recent_differs = refl

ask_endpoint-other_example :
    get "session:bob" (ask_endpoint redis scores vague_layer judge corpus "a" ann waiting).1.store
    ≡ get "session:bob" waiting.store
ask_endpoint-other_example =
    ask_endpoint-other redis redis_laws scores vague_layer judge corpus "a" ann "session:bob"
      keys_differ lock_differs recent_differs waiting
