-- ===== src/Ledger/Asks.antt =====
-- What the loop over the decisions of a response may do to the asks of its task.
use clonway_cockpit.Prelude.{String, ◌≡◌, false, some, List, [], ◌∷◌, arith, eq_iff}
use clonway_cockpit.Prelude.Dict
use clonway_cockpit.Prelude.Dict.{Dict, keys, get-put}
use clonway_cockpit.Handoff.{HandoffEnvelope, AskDecision}
use clonway_cockpit.Ledger.{
  AskState, FailureRecord, next_state, may_decide, decide_found, decide_all,
}

module _ (notice env : HandoffEnvelope) where
  -- an ask that a response of this origin may not decide keeps its state
  decide_found-locked :
      (d : AskDecision) (a : String) (st : AskState) (asks : Dict AskState)
      (fs : List FailureRecord)
      → Dict.get a asks ≡ some st
      → may_decide env.origin st ≡ false
      → Dict.get a (decide_found notice env d (Dict.get d.ask asks) (asks, fs)).0 ≡ some st
  unfolding decide_found
  decide_found-locked d a st asks fs h shut =
      ground (arith, get-put d.ask a (next_state env.origin d) asks, eq_iff d.ask a)

  pub decide_all-locked :
      (ds : List AskDecision) (a : String) (st : AskState) (asks : Dict AskState)
      (fs : List FailureRecord)
      → Dict.get a asks ≡ some st
      → may_decide env.origin st ≡ false
      → Dict.get a (decide_all notice env ds (asks, fs)).0 ≡ some st
  unfolding decide_all
  decide_all-locked [] a st asks fs h shut = h
  decide_all-locked (d ∷ ds) a st asks fs h shut =
      let (asks', fs') = decide_found notice env d (Dict.get d.ask asks) (asks, fs) in
      decide_all-locked ds a st asks' fs' (decide_found-locked d a st asks fs h shut) shut
