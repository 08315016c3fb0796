-- ===== src/Lib.antt =====
-- A model of the Pathway backend: the parts of the service that decide what learners and staff may
-- see and change.
--
-- The parts and their files
-- - Roles: the ranks of staff roles and the guard of the routes (src/common/decorators,
--   src/common/guards).
-- - Progress: the progress of a learner on a pathway (src/catalog/pathways/progress.ts).
-- - Opportunities: who sees an opportunity, its status and summary, and the saved ones
--   (src/opportunities).
-- - Teams: staff invites, created, claimed once and revoked (src/teams/teams.service.ts).
-- - Snapshot: a career draft and the check of its consistency
--   (src/catalog/content-revisions/career-snapshot.types.ts, career-snapshot.consistency.ts).
-- - Plan: the operations that take the live career to a draft, and what blocks them
--   (src/catalog/content-revisions/career-snapshot.plan.ts).
-- - Revisions: the drafts of a career, saved, rebased, submitted, recalled, reviewed and deleted
--   (src/catalog/content-revisions/content-revisions.service.ts, revision.rules.ts).
-- - Verification: the verification of an email by a code, with its limit of attempts, and the issue of
--   tokens (src/auth/auth.service.ts).
-- - Sessions: refresh tokens, rotated and revoked (src/auth/auth.service.ts).
-- - Credentials: registration, login, the recovery of a password by a link or a code, joining by a staff
--   invite, and sign-in with Google (src/auth/auth.service.ts, src/users/users.service.ts).
-- - Learning: the saved, active and started pathways of a learner and the status of each step
--   (src/catalog/pathways/pathways.service.ts, src/catalog/pathway-steps/pathway-steps.service.ts).
-- - Publishing: an approved revision published, with the application of its plan to the live career
--   (src/catalog/content-revisions/content-revisions.service.ts: publishRevision, applyPlan).
-- - Careers: the public list, a new career with its first draft, retirement and deletion
--   (src/catalog/careers/careers.service.ts).
-- - Diff: the diff of a revision for its reviewers
--   (src/catalog/content-revisions/reviewer-diff.formatter.ts, content-revisions.service.ts: buildDiff).
-- - Handlers: what a handler returns or throws, and its guards.
--
-- How they interact: Revisions runs the consistency check of Snapshot before it saves, and the
-- blockers of Plan before it submits; Plan compares a Snapshot with the live career; Teams and
-- Revisions take the roles of Roles. Publishing runs the plan of Plan on the tables of Revisions.
-- Careers adds the row and the first revision that Revisions goes on with, and deletes a career that
-- was not published and that no row of Learning has saved. Credentials writes the users of
-- Verification and the tokens of Sessions, and claims the invites of Teams. Learning takes the
-- progress of Progress.
--
-- Correspondence: the name of a function or field is the source's in snake case, of a type the
-- source's. A handler takes the tables that it reads and writes as lists of rows, and returns its
-- result, its effects in order (Effects) and the tables as it leaves them. Exceptions are values of
-- Exceptions. Prisma Client is the record `PrismaClient` of Database, whose laws are those that its
-- documentation states; Database.Reference is a client over lists that has them. Times are numbers
-- of milliseconds; the clock, random tokens, new ids, hashing and the case of texts are arguments.
-- Floating point arithmetic is the interface `Floats` of Progress.
--
-- Every function is total by structural recursion, so no bound or fuel is chosen.
--
-- Not modelled: the details of a career and the lists for staff,
-- profiles of users, the listing and sending of invites, opportunities' pages, log lines, the details
-- object of an exception, controllers, throttling and the validation of requests. In Publishing, foreign
-- keys to skills, fields and sources and the uniqueness of a career's title are not checked.
-- Every failure of a transaction holds the tables as they are then, since a failure that is returned
-- commits what was written before it; an exception takes back what was written.
-- Transactions run one at a time, since each one first takes the row locks that it needs.
pub mod Prelude
pub mod Exceptions
pub mod Database
pub mod Roles
pub mod Progress
pub mod Opportunities
pub mod Effects
pub mod Handlers
pub mod Learning
pub mod Teams
pub mod Verification
pub mod Sessions
pub mod Credentials
pub mod Snapshot
pub mod Plan
pub mod Revisions
pub mod Publishing
pub mod Careers
pub mod Diff
