-- ===== src/Schemas/Session.antt =====
-- schemas/session.py
use audit_flow_ai.Base.{String, Option, none, some, List, []}
use audit_flow_ai.Schemas.Verification.{VerifiedClaim}

pub data AskStatus : Type 0 where
  answered : AskStatus
  need_clarification : AskStatus
  low_relevance : AskStatus

-- the value of the enum
unfoldable pub status_value : AskStatus → String
status_value answered = "answered"
status_value need_clarification = "need_clarification"
status_value low_relevance = "low_relevance"

pub record AskResponse : Type 0 where
  pub status : AskStatus
  pub claims : List VerifiedClaim
  pub top_contract : Option String
  pub candidate_contracts : List String

-- the class methods of `AskResponse`
abbrev pub answer_with : List VerifiedClaim → String → AskResponse
answer_with claims d = record {
  status = answered;
  claims = claims;
  top_contract = some d;
  candidate_contracts = [];
}

abbrev pub low_relevance_of : Option String → AskResponse
low_relevance_of d = record {
  status = low_relevance;
  claims = [];
  top_contract = d;
  candidate_contracts = [];
}

abbrev pub clarify : List String → AskResponse
clarify candidates = record {
  status = need_clarification;
  claims = [];
  top_contract = none;
  candidate_contracts = candidates;
}
