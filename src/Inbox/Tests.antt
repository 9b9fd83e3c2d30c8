-- ===== src/Inbox/Tests.antt =====
-- Instances of the theorems on mailboxes.
use a2a_compliance.Inbox.{
  empty, claim, publish, poll_box, put_box, claimed, next_seq, pending, first_free, sort, insert,
  matching, last_seq, Mailbox,
}
use a2a_compliance.Inbox.Queue.{Call, run_box, run_queue, run_box-run_queue, put_call, poll_call}
use a2a_compliance.Inbox.Late.{World, Step, Reach, Reach-holds, holds, next, here, publishes, polls}
use a2a_compliance.Json.{Fields, field, str, end}
use a2a_compliance.Prelude.{List, ℕ, true, ◌∷◌, ◌≡◌, [], false, some, arith, refl, none}
use a2a_compliance.Inbox.Laws.{IsLeastFree, next_seq-IsLeastFree}
use a2a_compliance.Inbox.Drained.{pending-poll_box}

abbrev first : Fields
first = field "id" (str "a") end

abbrev second : Fields
second = field "id" (str "b") end

abbrev calls : List Call
calls = put_call first ∷ put_call second ∷ poll_call ∷ poll_call ∷ put_call first ∷ poll_call ∷ []

next_seq-IsLeastFree_example :
    (n : ℕ) × (next_seq (claim 2 (claim 0 empty)) ≡ some n) × IsLeastFree (2 ∷ 0 ∷ []) 0 n
unfolding claim
next_seq-IsLeastFree_example = next_seq-IsLeastFree (record empty { claims = 2 ∷ 0 ∷ [] })

run_box-run_queue_example : run_box (λ d. true) calls empty ≡ run_queue calls []
run_box-run_queue_example = run_box-run_queue (λ d. true) (λ d. refl) calls (omega arith)

run_box_runs : run_box (λ d. true) calls empty ≡ (first ∷ second ∷ []) ∷ [] ∷ (first ∷ []) ∷ []
unfolding run_box put_box poll_box next_seq first_free claimed claim publish sort insert matching
    last_seq pending
run_box_runs = refl

-- Two senders claim 0 and 1; the second publishes and the addressee polls before the first does.
abbrev claimed_both : World
claimed_both = record { box = record empty { claims = 1 ∷ 0 ∷ [] }; delivered = [] }

abbrev polled_early : World
polled_early = record {
  box = record { claims = 1 ∷ 0 ∷ []; files = (1, second) ∷ []; cursor = some 1 };
  delivered = (1, second) ∷ [];
}

abbrev published_late : World
published_late = record polled_early {
  box = record { claims = 1 ∷ 0 ∷ []; files = (1, second) ∷ (0, first) ∷ []; cursor = some 1 };
}

published_late-Reach : Reach polled_early published_late
unfolding publish claimed
published_late-Reach = next here (publishes polled_early 0 first refl)

polled_early-Reach : Reach (record { box = empty; delivered = [] }) polled_early
unfolding publish claimed claim poll_box pending sort matching last_seq insert next_seq first_free
polled_early-Reach =
    next
      (next (next (next here (Step.claims _ 0 refl)) (Step.claims _ 1 refl))
        (publishes claimed_both 1 second refl))
      (polls _)

Reach-holds_example : holds 0 published_late.delivered ≡ false
unfolding holds
Reach-holds_example = Reach-holds 0 polled_early published_late refl refl published_late-Reach

abbrev scattered : Mailbox
scattered = record { claims = 1 ∷ 0 ∷ []; files = (1, second) ∷ (0, first) ∷ []; cursor = none }

pending-poll_box_example : pending (poll_box scattered).1 ≡ []
pending-poll_box_example = pending-poll_box scattered
