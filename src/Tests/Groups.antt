-- ===== src/Tests/Groups.antt =====
-- The theorems on groups at a concrete state.
use be.Prelude.{◌≡◌, ◌≤◌, refl, [], ◌∷◌}
use be.Reports.Entities.{ReportPrototype}
use be.Reports.GroupReports.{report}
use be.Reports.GroupOutcomes.{Marked, report-Marked}
use be.Store.{ReportType, FriendStatus, World, ok}
use be.Friends.Checker.{check_is_friend, check_is_friend_all}
use be.Groups.Entities.{GroupPrototype, participations}
use be.Groups.Service.{create, add_members, check_existing}
use be.Groups.Members.{members, add_members-members}
use be.Groups.Creation.{Created, create_group-Created}
use be.Tests.Tables.{tables}
use be.Tests.States.{small, relation}

-- User 1 is a friend of user 3, too.
abbrev befriended : World
befriended = record small { friends = relation 51 1 3 FriendStatus.accepted ∷ small.friends }

added : (add_members 20 1 (3 ∷ []) befriended).0 ≡ ok tt
unfolding tables add_members check_is_friend_all check_is_friend check_existing participations
added = refl

add_members-members_example :
    (members 20 (add_members 20 1 (3 ∷ []) befriended).1 ≡ 3)
    × (members 20 (add_members 20 1 (3 ∷ []) befriended).1 ≤ 10)
add_members-members_example = add_members-members 20 1 (3 ∷ []) befriended added

abbrev readers : GroupPrototype
readers = record { name = "readers"; description = ""; group_image_url = ""; owner_id = 1 }

create_group-Created_example : Created readers (2 ∷ []) small (create readers (2 ∷ []) small)
create_group-Created_example = create_group-Created readers (2 ∷ []) small

abbrev complaint : ReportPrototype
complaint = record { reporter_id = 2; reported_id = 20; type = ReportType.group; reason = "" }

report-Marked_example : Marked complaint small (report complaint small)
report-Marked_example = report-Marked complaint small
