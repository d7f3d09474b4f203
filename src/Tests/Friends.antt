-- ===== src/Tests/Friends.antt =====
-- The theorems on friends at a concrete state.
use be.Prelude.{none, some, ◌≡◌, refl, arith}
use mathlib.Core.List.{Memᴰ}
use be.Store.{FriendStatus, ReportType, ok, err, already_friends}
use be.Friends.Relation.{IsValid, status_of}
use be.Friends.Service.{FriendPrototype, request, accept}
use be.Friends.Transitions.{Turns, request-Turns, accept-Turns}
use be.Friends.Verdicts.{request-verdict, accept-verdict}
use be.Friends.Symmetry.{accept-by_sender}
use be.Friends.History.{Step, after, Reaches, Reaches-IsValid}
use be.Reports.Entities.{ReportPrototype}
use be.Reports.FriendReports.{report}
use be.Reports.FriendTransitions.{Reported, report-Turns, report-Reported}
use be.Tests.Tables.{tables}
use be.Tests.States.{small, request_1_3}

small-IsValid : IsValid small.friends
small-IsValid = (((ground arith, refl), tt), ground arith, (tt, ground arith, tt))

abbrev to_3 : FriendPrototype
to_3 = record { sender_id = 2; receiver_id = 3 }

abbrev complaint : ReportPrototype
complaint = record { reporter_id = 1; reported_id = 2; type = ReportType.friend; reason = "" }

-- User 2 asks user 3, who accepts; then user 1 reports user 2.
three_steps : Reaches small (
    after
      (Step.report_step complaint)
      (after (Step.accept_step 2 3) (after (Step.request_step to_3) small)))
three_steps =
    Reaches.step (Step.report_step complaint)
      (Reaches.step (Step.accept_step 2 3) (Reaches.step (Step.request_step to_3) Reaches.start))

Reaches-IsValid_example :
    IsValid
      (after
        (Step.report_step complaint)
        (after (Step.accept_step 2 3) (after (Step.request_step to_3) small))).friends
Reaches-IsValid_example =
    Reaches-IsValid small
      (after (Step.report_step complaint)
        (after (Step.accept_step 2 3) (after (Step.request_step to_3) small)))
      small-IsValid three_steps

request-Turns_example : Turns 2 3 none (some FriendStatus.pending) small (request to_3 small)
request-Turns_example = request-Turns to_3 small small-IsValid

accept-Turns_example :
    Turns 1 3 (some FriendStatus.pending) (some FriendStatus.accepted) small (accept 1 3 small)
accept-Turns_example = accept-Turns 1 3 small small-IsValid

report-Turns_example : Turns 1 2 (some FriendStatus.accepted) none small (report complaint small)
report-Turns_example = report-Turns complaint small small-IsValid

report-Reported_example : Reported complaint small (report complaint small)
report-Reported_example = report-Reported complaint small

request-verdict_example : (request to_3 small).0 ≡ ok tt
unfolding tables
request-verdict_example = request-verdict to_3 small small-IsValid refl

accept-verdict_example : (accept 1 2 small).0 ≡ err already_friends
accept-verdict_example = accept-verdict 1 2 small small-IsValid

accept-by_sender_example :
    let (r, w') = accept 3 1 small in
    (r ≡ ok tt) × (status_of 1 3 w'.friends ≡ some FriendStatus.accepted)
accept-by_sender_example =
    accept-by_sender small request_1_3 small-IsValid (Memᴰ.tail (Memᴰ.head refl)) refl
