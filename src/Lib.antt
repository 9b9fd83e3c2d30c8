-- ===== src/Lib.antt =====
-- Verification of a2a-compliance, a control plane between compliance agents and the makers that
-- they oversee. The program decides who may steer whom, whether an action is admitted, and when a
-- permit becomes an effect; everything it receives is checked before it is trusted.
--
-- The parts, and the files that model them:
--   Prelude, Text, Json, Host: shared notation; texts as UTF-8 bytes; JSON values, where a dict is
--     its list of fields and `get` of a missing key is null; and, as the record Host, what the
--     program calls outside its own text (SHA-256, Ed25519, base64, jsonschema, ISO 8601 dates).
--   Verbs (interfaces/a2a_control.py), Authority (a2a_compliance/authority.py), Governance
--     (a2a_compliance/governance_block.py): verbs, role authority, and the declared boundary.
--   Grounding (a2a_compliance/grounding.py): findings of the value planes to an action.
--   Team (a2a_compliance/team.py), Lifecycle (a2a_compliance/lifecycle.py): the control plan, and
--     the fold of stage receipts before and after a dispatch.
--   Nonces: the port NonceStore of a2a_compliance/wire/verification.py, with the in-memory store
--     and the file store of a2a_compliance/nonce_store.py.
--   Wire.Canonical, Wire.Trust, Wire.Signing: a2a_compliance/wire/canonical.py, trust.py and
--     signing.py. Wire.Checks and Wire.Verification: a2a_compliance/wire/verification.py.
--   Wire.Admission: a2a_compliance/wire/admission.py. Wire.Executor:
--     a2a_compliance/wire/executor.py. Wire.Reconciliation, Wire.Obligations, Wire.Certification
--     and Wire.Chain: a2a_compliance/wire/reconciliation.py, obligations.py, certification.py,
--     chain.py and audit_chain.py.
--   Envelope (a2a_compliance/envelope.py): the control message and its wire form. Inbox
--     (a2a_compliance/inbox.py): mailboxes, with the claim of a number and the publication under
--     it as two steps. Participant (a2a_compliance/participant.py): the maker's side, with its
--     checkpoint. Channel (a2a_compliance/channel.py): the compliance agent's side.
--
-- How they interact: `admit` calls `verify` on receipts and approvals, `issue_permit` turns its
-- result into a permit, and the executor calls `verify` again on the permit; the last two take a
-- nonce store. On the control channel the agent signs an envelope and puts it into the maker's
-- mailbox, and the maker's checkpoint polls it, verifies it and changes the maker's state.
--
-- A function of the source keeps its name without a leading underscore; a keyword argument list is
-- a record; an error message is a constructor with the values that it prints; an exception is
-- `none` or a constructor `..._raises`. Ports (trust, revocation, nonces, authority, executor) are
-- functions or records of functions, and a theorem that relies on a nonce store names IsNonceStore.
-- The state of a store is passed from call to call, and the calls of the executor's port are listed.
--
-- The search for a free sequence number has one round more than there are claims as its fuel, which
-- a theorem shows to be enough; every other recursion is structural. Instants are microseconds as
-- unbounded numbers, as Python's integers are, and one checkpoint or one audit reads the clock once.
-- A float is known by its `repr`. Python's `==` on values is equality of JSON values, which unlike
-- Python's depends on the order of a dict's keys. The recommended action is one of the four texts. Status and scope values are texts, as the schemas demand.
--
-- Not modelled: the value planes' third-party adapters, the development signers, the child
-- processes of harness.py, coord_grounding.py, schema.py, the conformance kit, and the files
-- of a mailbox beyond their numbers and messages; a published file reads back as it was written.
-- The wording of messages is a parameter where a message is part of an object.
pub mod Prelude
pub mod Text
pub mod Json
pub mod Host
pub mod Wire
pub mod Verbs
pub mod Authority
pub mod BoundaryTests
pub mod Governance
pub mod Grounding
pub mod Team
pub mod Nonces
pub mod Lifecycle
pub mod Envelope
pub mod Inbox
pub mod Participant
pub mod Channel
