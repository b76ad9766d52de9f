-- ===== src/Session/State.antt =====
-- `SessionState` of session_store.py
use audit_flow_ai.Base.{String, Option, none, List, []}

pub record SessionState : Type 0 where
  pub active_contract : Option String
  pub pending_question : Option String
  pub pending_candidates : List String

-- `SessionState()`
abbrev pub new_state : SessionState
new_state = record { active_contract = none; pending_question = none; pending_candidates = [] }
