-- ===== src/Lib.antt =====
-- Verification of the TACO backend: the money and scheduling core of a tutoring academy.
--
-- The backend keeps class sessions, the payouts of its instructors, expenses and one ledger of
-- transactions in collections of rows (src/database/in-memory.database.ts, with
-- src/database/postgres-collection.store.ts over it), and runs each command in one transaction
-- (src/database/calendar-unit-of-work.service.ts). Sessions are planned, moved,
-- reassigned and removed against conflicts (src/modules/schedule), become held when they have ended and everybody's attendance is recorded, and are
-- priced by one classification. A payout gathers the priced sessions of an instructor and a period; it
-- is confirmed, adjusted, paid with a ledger row, rejected, or reversed with a compensating row
-- (src/modules/payouts). Expenses are requested and decided, with a ledger row on approval
-- (src/modules/expenses). Sessions of the browser live on rotating refresh tokens (src/modules/auth).
--
-- Files, with the code that they model:
--   Common, Common/*    helpers of this library: tests, options, lists, integers, doubles
--   Exec                commands that answer or throw, and the transaction with its rollback, nested
--                       in another one as the body alone
--                       (InMemoryDatabase.transaction, CalendarUnitOfWork.run)
--   Store, Store/*      one collection: insert, findById, findAll, findBy, update, updateIf, remove,
--                       restore, seedExact, replaceExact, findActive, and the laws of its lookups
--   Time                src/common/time.util.ts
--   Users               who counts as a teacher: src/modules/users/user.entity.ts and
--                       src/modules/users/instructor-profiles.store.ts
--   Schedule/Entity     src/modules/schedule/schedule.entity.ts
--   Schedule/Participants        src/modules/schedule/session-participant.policy.ts
--   Schedule/SessionTime         src/modules/schedule/session-time.policy.ts
--   Schedule/Conflicts           src/modules/schedule/conflict.util.ts: detectConflicts
--   Schedule/SeriesScope         src/modules/schedule/series-scope.policy.ts
--   Schedule/TemporalTransition  src/modules/schedule/session-temporal-transition.policy.ts
--   Schedule/Accounting          src/modules/schedule/session-accounting.policy.ts, with its projections
--                       and impacts in Schedule/Accounting/Projections, and proofs on
--                       its amounts in Schedule/Accounting/Amounts
--   Planning            the calendar's state and errors: src/modules/schedule/schedule.service.ts
--   Planning/Validation the lookups and checks of src/modules/schedule/schedule-read.service.ts, with
--                       src/modules/students/student-status.policy.ts
--   Planning/Dates      occurrenceDatesOf
--   Planning/Creation   create and createSeries
--   Planning/Context    src/modules/schedule/session-accounting-context.service.ts
--   Planning/Assignment, Planning/Courses   updateInstructorAssignment, and the update of
--                       src/modules/courses/courses.service.ts that it may make
--   Planning/Removal    remove with its scope, with removeBySession of attendance and reports
--   Planning/Pay        setSessionPayAmount, restoreSession
--   Planning/Update, Planning/Update/*   update with its scope, mergeFields, and
--                       setInstructorAttendance and clearInstructorAttendance
--   Planning/Apart, Planning/Apart/*     the invariant of the calendar, with one child per command
--   Planning/History    the requests of the calendar
--   Planning/Frame      the steps of them that touch neither sessions nor books
--   Planning/Books, Planning/Books/*     calendar commands and the books of the payouts, with histories
--                       in which payout and calendar requests are mixed
--   Payouts/Rows        src/modules/payouts/payout.entity.ts and the rows next to it
--   Payouts/Read        src/modules/payouts/payouts-read.service.ts and the rates of src/modules/courses
--   Payouts/Steps, Payouts/Commands   src/modules/payouts/payouts.service.ts: generate, confirm,
--                       unconfirm, adjust, reject, reverse, pay, generateBulk, and claimPayout of
--                       src/modules/schedule/class-sessions.store.ts
--   Payouts/Integrity   src/modules/payouts/payout-integrity.ts
--   Payouts/Accounting  src/modules/payouts/accounting-integrity.ts
--   Payouts/Worksheet   the worksheet of src/modules/payouts/payouts-read.service.ts
--   Payouts/Readiness   src/modules/payouts/payout-readiness.policy.ts
--   Payouts/Sound       the invariant of the payout tables, with one child module per command
--   Payouts/History     histories of requests as a relation, with writes of other services between
--   Payouts/Checked, Payouts/Books, Payouts/Bulk, Payouts/Reversal, Payouts/Lines   proofs
--   Enrollments         src/modules/enrollments/enrollment-lifecycle.policy.ts, with the update of
--                       src/modules/enrollments/enrollments.service.ts in Enrollments/Commands
--   Enrollments/Lifecycle, Enrollments/Update   proofs
--   Expenses, Expenses/*         src/modules/expenses/expenses.service.ts
--   RefreshTokens, RefreshTokens/*    src/modules/auth/refresh-tokens.service.ts
--   Samples, Tests      small inputs on which the theorems are applied
--
-- State and numbers. A service's state is a record of collections; a method is a function of it that
-- answers or throws, with the state that it leaves. Numbers of rows, minutes, won and milliseconds are
-- natural numbers, which the source's doubles hold exactly at these sizes, and differences are
-- integers. An ISO date is the number of its day, and an "HH:mm" text its two numbers. The amount of a
-- session alone takes fractions: Common/Doubles rounds its quotient and its product to 53 binary digits
-- as the source's doubles are, for which 128 doublings are enough with operands below 2 ^ 53. No other
-- function needs fuel: every other loop goes over a list.
--
-- Left out: locks and the refresh of the read model, since commands run one at a time on the tables
-- themselves; the SQL branches, which have the conditions of the memory mode; the id and field indexes,
-- which only speed lookups up; logging, message texts, labels, and the recorded differences of audit
-- rows. `resolveSessionParticipantIds` of the contracts package, the collation of texts, sha256 and
-- random tokens come from outside and are parameters. So is, in the calendar, `digest`, the fingerprint of an accounting effect, which is a
-- number, and the text with a random part that links the audit rows of one command is an argument. A
-- series is in the one time zone that the code accepts, and a day that is shifted before 1970 is day 0.
-- The lock that a calendar command takes is left out with the state it saw before the lock, since
-- both states are one when commands run one at a time; the joined names of the answer, prices of
-- sessions, topics, memos, colours and the mark of public sessions are left out, and an edit of these
-- alone counts as no change of the row. The imports of past sessions and of whole classes are not
-- modelled. Controllers, validation annotations, migrations,
-- mail and the other record modules are not modelled.
pub mod Common
pub mod Enrollments
pub mod Exec
pub mod Expenses
pub mod Payouts
pub mod Planning
pub mod RefreshTokens
pub mod Schedule
pub mod Store
pub mod Time
pub mod Users
