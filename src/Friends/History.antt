-- ===== src/Friends/History.antt =====
-- Sequences of requests, answers and reports, and the validity of the table of friends
-- (src/domain/services/friends, src/domain/components/report/friend-reports-write.service.ts).
use be.Prelude.{◌≡◌, Option}
use be.Store.{Uuid, FriendStatus, World, Result, ok, err, Platform}
use be.Friends.Relation.{IsValid}
use be.Friends.Service.{FriendPrototype, request, accept, reject, unfriend}
use be.Friends.Transitions.{Turns, request-Turns, accept-Turns, reject-Turns, unfriend-Turns}
use be.Reports.Entities.{ReportPrototype}
use be.Reports.FriendReports.{report}
use be.Reports.FriendTransitions.{report-Turns}

-- What a client asks of the relation of two users.
pub data Step : Type 0 where
  request_step : FriendPrototype → Step
  accept_step reject_step unfriend_step : Uuid → Uuid → Step
  report_step : ReportPrototype → Step

module _ ⦃p : Platform⦄ where
  -- The state after a step, whether it was refused or not.
  unfoldable pub after : Step → World → World
  after (request_step proto) w = (request proto w).1
  after (accept_step s r) w = (accept s r w).1
  after (reject_step s r) w = (reject s r w).1
  after (unfriend_step s r) w = (unfriend s r w).1
  after (report_step proto) w = (report proto w).1

  -- One state is reached from another by steps between which any other tables may change.
  pub data Reaches (w : World) : World → Type 0 where
    start : Reaches w w
    step : (s : Step) {v : World} → Reaches w v → Reaches w (after s v)
    other : {v u : World} → u.friends ≡ v.friends → Reaches w v → Reaches w u

  Turns-IsValid :
      {A : Type 0} (a b : Uuid) (s t : Option FriendStatus) (w : World) (o : Result A × World)
      → IsValid w.friends
      → Turns a b s t w o
      → IsValid o.1.friends
  Turns-IsValid a b s t w (ok _, w') v turn = turn.0
  Turns-IsValid a b s t w (err _, w') v same = rw same v

  after-IsValid : (s : Step) (w : World) → IsValid w.friends → IsValid (after s w).friends
  unfolding after
  after-IsValid (request_step proto) w v =
      Turns-IsValid _ _ _ _ w (request proto w) v (request-Turns proto w v)
  after-IsValid (accept_step s r) w v =
      Turns-IsValid _ _ _ _ w (accept s r w) v (accept-Turns s r w v)
  after-IsValid (reject_step s r) w v =
      Turns-IsValid _ _ _ _ w (reject s r w) v (reject-Turns s r w v)
  after-IsValid (unfriend_step s r) w v =
      Turns-IsValid _ _ _ _ w (unfriend s r w) v (unfriend-Turns s r w v)
  after-IsValid (report_step proto) w v =
      Turns-IsValid _ _ _ _ w (report proto w) v (report-Turns proto w v)

  -- From a state whose table of friends is valid, whatever sequence of requests, acceptances,
  -- refusals, ends of friendships and reports is run, refused or not, and whatever the other parts
  -- of the program do to other tables between them, no two rows link the same two users, no two
  -- have one id, and none is marked as reported.
  pub Reaches-IsValid : (w w' : World) → IsValid w.friends → Reaches w w' → IsValid w'.friends
  Reaches-IsValid w w' v start = v
  Reaches-IsValid w w' v (step s {v = u} before) = after-IsValid s u (Reaches-IsValid w u v before)
  Reaches-IsValid w w' v (other {v = u} same before) = rw same (Reaches-IsValid w u v before)
