-- ===== src/Wire/Admission/Decide/Receipts.antt =====
-- The receipts that `admit` relies on: what `_index_and_verify` keeps and what it demands.
use mathlib.Core.List.{Memᴰ}
use a2a_compliance.Host.{Host}
use a2a_compliance.Prelude.{
  Bool, List, if◌then◌else◌, String, not, ◌≡◌, some, ◌∷◌, [], none, Bool-cases, Option-cases, refl,
  contains, true, ◌==◌, inl, false, is_empty, eq_iff, inr, append-eq-nil, arith, is_none,
  is_empty-eq-true, Option, ◌≢◌,
}
use a2a_compliance.Wire.Admission.{
  Receipts, preflight_reasons, obligation_reasons, AdmissionReason, reported, InvalidReceipt, find,
  receipt_finding, index_and_verify, is_unresolved, receipt_key, is_failed, missing_preflight,
  unacknowledged_obligations, unresolved_preflight, failed_preflight, invalid_preflight,
}
use a2a_compliance.Json.{Value, Fields, obj, get, str, null, is_str}
use a2a_compliance.Wire.Checks.{Ports}
use a2a_compliance.Wire.Verification.Laws.{Accepts, verify-IsAccepted}
use a2a_compliance.Lifecycle.Preview.Laws.{select-eq-nil}
use a2a_compliance.Wire.Verification.{verify}
use mathlib.Core.Option.{some-injective}
use a2a_compliance.Wire.Checks.Laws.{is_str-eq}

-- A receipt of the given ones that verifies, is bound to the action and names the tool.
pub record IsEvidence (host : Host) (str_of : Value → String) (ports : Ports) (digest : String)
    (all : List Value) (n : String) (r : Fields) : Type 0 where
  pub given : Memᴰ (obj r) all
  pub accepted : Accepts host ports (obj r) "StageReceipt"
  pub bound : get "action_digest" r ≡ str digest
  pub named : receipt_key host str_of r ≡ n

admitted_receipt :
    {A : Type 0} (a b c : Bool) (x y z : A)
    → (if not a then some x else if not b then some y else if not c then some z else none) ≡ none
    → (a ≡ true) × (b ≡ true)
admitted_receipt true true c x y z h = (refl, refl)
admitted_receipt true false c x y z h = cc
admitted_receipt false b c x y z h = cc

module _ (host : Host) (str_of : Value → String) (ports : Ports) (digest : String)
    (all : List Value) where
  abbrev pub IndexIsEvidence : Receipts → Type 0
  IndexIsEvidence indexed =
      (n : String) (r : Fields)
      → find n indexed ≡ some r
      → IsEvidence host str_of ports digest all n r

  finding_none :
      (indexed : Receipts) (r : Fields)
      → Memᴰ (obj r) all
      → receipt_finding host str_of ports digest indexed r ≡ none
      → IsEvidence host str_of ports digest all (receipt_key host str_of r) r
  unfolding receipt_finding
  finding_none indexed r given h =
      let (ok, bound) =
        admitted_receipt (is_empty (verify host ports (obj r) "StageReceipt"))
          (is_str (get "action_digest" r) digest)
          (is_none (find (receipt_key host str_of r) indexed)) _ _ _ h in
      record {
        given = given;
        accepted = verify-IsAccepted host ports (obj r) "StageReceipt" (is_empty-eq-true _ ok);
        bound = is_str-eq (get "action_digest" r) digest bound;
        named = refl;
      }

  extended :
      (indexed : Receipts) (k : String) (r : Fields)
      → IndexIsEvidence indexed
      → IsEvidence host str_of ports digest all k r
      → IndexIsEvidence ((k, r) ∷ indexed)
  extended indexed k r inv new n r' h = elim (Bool-cases (k == n)) [
    | inl same ↦
        let e : k ≡ n = (eq_iff k n).0 same in
        let e' : r ≡ r' = some-injective r r' (rw same at h) in
        let new' : IsEvidence host str_of ports digest all n r = rw e at new in rw e' at new'
    | inr other ↦ inv n r' (rw other at h)
  ]

  -- Every receipt that the index keeps verified, is bound to the action and was given.
  pub index_and_verify-IsEvidence :
      (rs : List Value) (indexed : Receipts)
      → ((v : Value) → Memᴰ v rs → Memᴰ v all)
      → IndexIsEvidence indexed
      → IndexIsEvidence (index_and_verify host str_of ports digest rs indexed).0
  unfolding index_and_verify
  index_and_verify-IsEvidence [] indexed sub inv = inv
  index_and_verify-IsEvidence (obj r ∷ rs) indexed sub inv =
      let sub' : (v : Value) → Memᴰ v rs → Memᴰ v all = λ v m. sub v (Memᴰ.tail m) in
      elim (Option-cases (receipt_finding host str_of ports digest indexed r)) [
        | inl kept ↦
            rw (kept, index_and_verify)
              (index_and_verify-IsEvidence rs _ sub' (
                extended indexed (receipt_key host str_of r) r inv
                  (finding_none indexed r (sub (obj r) (Memᴰ.head refl)) kept)))
        | inr (e, found) ↦
            rw (found, index_and_verify) (index_and_verify-IsEvidence rs indexed sub' inv)
      ]
  index_and_verify-IsEvidence (null ∷ rs) indexed sub inv =
      index_and_verify-IsEvidence rs indexed (λ v m. sub v (Memᴰ.tail m)) inv
  index_and_verify-IsEvidence (_ ∷ rs) indexed sub inv =
      index_and_verify-IsEvidence rs indexed (λ v m. sub v (Memᴰ.tail m)) inv

reported-eq-nil :
    {A : Type 0} (reason : List A → AdmissionReason) (xs : List A)
    → reported reason xs ≡ []
    → xs ≡ []
reported-eq-nil reason [] h = refl
reported-eq-nil reason (x ∷ xs) h = cc

some_not_none : (o : Option Fields) → o ≡ none → is_none o ≢ false
some_not_none none e h = cc
some_not_none (some r) e h = cc

-- The tests of an indexed receipt.
pub record IsSettled (indexed : Receipts) (n : String) : Type 0 where
  pub receipt : Fields
  pub found : find n indexed ≡ some receipt
  pub resolved : is_unresolved (some receipt) ≡ false
  pub not_failed : is_failed (some receipt) ≡ false

-- With no preflight reason, no receipt was invalid and every required tool has a settled one.
pub preflight_reasons-IsSettled :
    (required : List String) (indexed : Receipts) (invalid : List InvalidReceipt)
    → preflight_reasons required (indexed, invalid) ≡ []
    → (invalid ≡ []) × ((n : String) → contains required n ≡ true → IsSettled indexed n)
unfolding preflight_reasons
preflight_reasons-IsSettled required indexed invalid h =
    let (h₀, rest) = append-eq-nil _ _ h in
    let (h₁, rest₁) = append-eq-nil _ _ rest in
    let (h₂, h₃) = append-eq-nil _ _ rest₁ in
    let complete = reported-eq-nil missing_preflight _ h₁ in
    let resolved = reported-eq-nil unresolved_preflight _ h₂ in
    let unfailed = reported-eq-nil failed_preflight _ h₃ in
    (
      reported-eq-nil invalid_preflight invalid h₀,
      λ n c. elim (Option-cases (find n indexed)) [
        | inl absent ↦ absurd (
            some_not_none (find n indexed) absent
              (select-eq-nil (λ n. is_none (find n indexed)) required n complete c))
        | inr (r, found) ↦ record {
          receipt = r;
          found = found;
          resolved =
              rw found at
                (select-eq-nil (λ n. is_unresolved (find n indexed)) required n resolved c);
          not_failed =
              rw found at (select-eq-nil (λ n. is_failed (find n indexed)) required n unfailed c);
        }
      ],
    )

-- With no obligation reason, every obligation is acknowledged.
pub obligation_reasons-acknowledged :
    (obligations acknowledged : List String) (o : String)
    → obligation_reasons obligations acknowledged ≡ []
    → contains obligations o ≡ true
    → contains acknowledged o ≡ true
unfolding obligation_reasons
obligation_reasons-acknowledged obligations acknowledged o h c =
    let e =
      select-eq-nil (λ o. not (contains acknowledged o)) obligations o
        (reported-eq-nil unacknowledged_obligations _ h) c in
    ground arith
