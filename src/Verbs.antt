-- ===== src/Verbs.antt =====
-- interfaces/a2a_control.py: the verbs and verdicts of the control channel.
use a2a_compliance.Prelude.{String, Option, some, none, ◌==◌, if◌then◌else◌}

pub data Verb : Type 0 where
  query_state issue_directive hold resume halt report_state ack escalate : Verb

-- `verb.value`
unfoldable pub value : Verb → String
value query_state = "query-state"
value issue_directive = "issue-directive"
value hold = "hold"
value resume = "resume"
value halt = "halt"
value report_state = "report-state"
value ack = "ack"
value escalate = "escalate"

-- `Verb(text)`, or `ValueError`
unfoldable pub of_value : String → Option Verb
of_value s =
    if s == "query-state"
    then some query_state
    else if s == "issue-directive"
    then some issue_directive
    else if s == "hold"
    then some hold
    else if s == "resume"
    then some resume
    else if s == "halt"
    then some halt
    else if s == "report-state"
    then some report_state
    else if s == "ack"
    then some ack
    else if s == "escalate"
    then some escalate
    else none

pub data SteerVerdict : Type 0 where
  satisfied not_satisfied open_verdict : SteerVerdict

-- `verdict.name`
unfoldable pub name : SteerVerdict → String
name satisfied = "SATISFIED"
name not_satisfied = "NOT_SATISFIED"
name open_verdict = "OPEN"

-- `SteerVerdict[name]`, or `KeyError`
unfoldable pub of_name : String → Option SteerVerdict
of_name s =
    if s == "SATISFIED"
    then some satisfied
    else if s == "NOT_SATISFIED"
    then some not_satisfied
    else if s == "OPEN"
    then some open_verdict
    else none
