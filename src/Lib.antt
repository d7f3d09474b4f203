-- ===== src/Lib.antt =====
-- The server of an app in which friends plan gatherings, form groups and write feeds: its services
-- (src/domain/services, src/domain/components, src/application/use-cases) over the repositories of
-- a database (src/infrastructure/repositories). A service method is an action: a function from the
-- state of all tables to a result, or an exception, and the state after it. Where the code awaits a
-- promise the action runs; where it does not, the action runs and what it throws reaches nobody.
--
-- The parts, each a module with one child for each class of the code:
-- - Store: the rows (prisma/schema.prisma, prisma/generated/types.ts), the exceptions
--   (src/domain/error/exceptions), the state, the actions, and what stands outside the code:
--   `Platform` has the operations of the database client, transactions, the clock, the generator of
--   UUIDs, the signing of tokens and the OAuth providers, with their documented behaviour.
-- - Friends: src/domain/services/friends, the checker, reader and writer of
--   src/domain/components/friend, and the repository. `Friends.Relation` is the abstract view: the
--   status of the relation of two users.
-- - Groups: src/domain/services/groups, src/domain/components/group and the repositories.
-- - Gatherings: src/domain/services/gatherings, src/domain/components/gathering and the
--   repositories. Groups gives it the members to invite, Friends the test of a friendship.
-- - Feeds, Comments: src/domain/services/feed, src/domain/services/feed-comments and their
--   components. A feed on a gathering reads the gathering and its participations.
-- - Reports: src/domain/components/report. A report of a friend removes the relation of Friends and
--   the pending invitations of Gatherings.
-- - Notifications: src/domain/components/notification; the services start its actions without
--   awaiting them.
-- - Users, Auth: src/domain/services/user, src/domain/services/auth and their components.
-- - UseCases: src/application/use-cases. Dates: src/utils/date. Http:
--   src/common/filters/http-exception.filter.ts.
-- - Prelude has the shared names and list operations, Tests a platform on lists and concrete states.
--
-- A method keeps the name of the code in snake case; a method of a class stands in the module of the
-- class, so `Friends.Service.accept` is `FriendsService.accept`. An identifier is a number of 128
-- bits, a time is in milliseconds from 1970 on, a column that may be null is an `Option`. Loops are
-- recursion on lists, so no fuel is needed. Requests run one after the other: interleavings within a
-- request are not modelled, but the ends of transactions are, with what writes past them. `Promise.all`
-- runs from left to right, and stops at the first exception.
--
-- The tables have their unique keys, and a row that is added with a key of another is an error. Of
-- the updates only those of an account id and of the time of a withdrawal write a column of a key,
-- and meet that error too. That a row refers to one that is there is not modelled, but what the
-- database does with the rows that refer to a deleted group is.
--
-- The paginated lists: Paging has the inputs (src/shared/types), the conditions on a cursor and the
-- orders, Cursors the cursors (src/domain/helpers/get-cursor.ts), and the modules Queries of a
-- component the queries of its repository, with Types for what they show. A join is a list of pairs,
-- `GROUP BY` keeps one row of each group, `ORDER BY` is an operation of `Platform` that permutes the
-- rows into the order, and the order of rows that tie is not known; the rows are then collected by id
-- as the code does. The collation of texts is a strict order of which nothing more is known, and so
-- is `LIKE` a test. `Paging.Walk.pages` is a client that follows the cursors; its fuel is the number
-- of pages it asks for, and the theorems say how many are enough. The dates of an input are texts that
-- are read as times: that they are dates is for the checks of a request.
--
-- Not modelled: the controllers with their data transfer objects, converters and pipes, logging, the
-- upload of images, the strategies of the OAuth providers, the client secret for Apple, the consumer
-- of the `notify` event, the modules and the configuration.
pub mod Prelude
pub mod Store
pub mod Users
pub mod Friends
pub mod Gatherings
pub mod Groups
pub mod Paging
pub mod Cursors
pub mod Notifications
pub mod Feeds
pub mod Dates
pub mod Comments
pub mod Reports
pub mod Auth
pub mod UseCases
pub mod Http
pub mod Tests
