-- ===== src/Lib.antt =====
-- Customer portal: the support tickets, the tamper-evident audit log, and the accounts of the
-- backend: login, refresh tokens, sessions, password reset, the second factor, email verification,
-- roles, and the administration of users.
--
-- The backend is a FastAPI application over PostgreSQL and a Valkey cache. Customers open tickets,
-- attach files and reply; agents assign, resolve and close; every change is recorded in an audit
-- table whose rows a database trigger links by hashes, and which a script verifies. Users log in with
-- a password and perhaps a second factor; an access token names a session, and a refresh token is
-- exchanged once for its successor. Administrators create accounts, give roles, whose scopes the tokens
-- carry, and deactivate accounts; a link verifies an address, and a job purges accounts whose address was not.
--
-- Parts
--   Prelude            the library names that all files use, Boolean tests, lists, tables, and
--                      signed numbers over the native ones.
--   Valkey             the cache server as a record of operations with the documented laws of the
--                      commands that are sent, and the keys of app/core/cache_keys.py.
--   Session            the session of app/db/dependencies.py: state with errors, and the ways the
--                      services build on it.
--   Counter            the counters that the cache gateways of users and support share.
--   Support.Models     app/modules/support/models.py with its CHECK constraints, exceptions.py, and
--                      the answers of schemas.py.
--   Support.World      what a request works on: the database as its session sees it, what is
--                      committed, the cache, the mail that was sent; and the actions of the services:
--                      state with errors. `record_event` is that of app/modules/audit/service.py.
--   Support.Repository TicketRepository of app/modules/support/repository.py, one definition for each
--                      statement, its WHERE and its SET clause apart. `assign` and `unassign` are
--                      assign_ticket and unassign_ticket of that class.
--   Support.Attachments  AttachmentRepository, and the loops of the service over attachments.
--   Support.Cache      app/modules/support/cache.py: idempotency keys and rate limits.
--   Support.Lifecycle  TicketService of app/modules/support/service.py: resolve_ticket, close_ticket,
--                      reopen_ticket, assign_ticket and unassign_ticket; its children hold what the
--                      methods commit (Effects) and when they succeed (Outcomes).
--   Support.Creation   TicketService.create_ticket with _hash_request and _resolve_idempotency_replay;
--                      its children hold what is proved of it.
--   Support.Replies    TicketReplyService.create_reply; its children hold what it does to the attachments
--                      (Attaching) and to the ticket (Touching), its writes (Writing), and its outcomes.
--   Support.Jobs       scripts/auto_close_resolved_tickets.py, scripts/purge_unbound_attachments.py
--                      and the repository's statements that they use.
--   Support.Router     the endpoints of app/modules/support/router.py that write, with
--                      resolve_actor_kind of dependencies.py; `serve` runs a list of requests.
--   Support.Access     who may do what to a ticket.
--   Support.Evolution  how the database may change while requests are served: the relation, the rules
--                      by which the actions keep it (Rules, Keeps), each statement and method
--                      (Statements, CacheSteps, Requests), and runs of requests (History).
--   Audit.Digest       audit_log_row_hash of migrations/versions/57a978462b74_add_audit_log_and_history_view.py.
--   Audit.Chain        the trigger of that migration, and scripts/verify_audit_chain.py; its children
--                      hold what a verdict means (Soundness), how the log grows (Growth), two rows of one
--                      transaction (Batch), and rows changed behind the trigger's back (Tampering).
--   Users.Models       app/modules/users/models.py and exceptions.py.
--   Users.World        the libraries, settings, clocks and services that a request works with.
--   Users.Rows, Users.Repository  app/modules/users/repository.py: its clauses and its statements.
--                      `revoke_session_row`, `activate_mfa_row` and `disable_mfa_row` are
--                      revoke_session, activate_mfa and disable_mfa of that class.
--   Users.Cache        app/modules/users/cache.py and app/core/revocation_cache.py.
--   Users.Refresh      UserService.rotate_refresh_token of app/modules/users/service.py, what its checks let
--                      pass (Loading), what it commits (Rotation), its halves before and after the other
--                      sessions' commits (Phases, Spent), and schedules of requests with one token (Schedules,
--                      Once).
--   Users.Sessions     get_authenticated_user, logout, logout_all, revoke_session and
--                      revoke_other_sessions, with app/modules/users/dependencies.py and
--                      decode_access_token of app/core/security.py; whom they resolve (Authentication),
--                      what a logout ends (Ended) and what a revocation does (Revocation).
--   Users.Login        authenticate_user and _evict_oldest_family_if_at_cap; whom it admits
--                      (Admission), what wrong credentials tell (Refusal), the number of sessions
--                      (Cap), what it leaves alone (Opening).
--   Users.PasswordReset  request_password_reset and confirm_password_reset, and what is proved of them.
--   Users.Mfa          enroll_mfa, activate_mfa, verify_mfa and disable_mfa, with verify_totp_code of
--                      app/core/security.py, and what is proved of them.
--   Users.Registration register_user with _validate_email and _validate_password, and what it commits
--                      (Outcome).
--   Account            app/modules/account: deactivation and reactivation within the grace period (Grace).
--   Administration.Models  the models of app/modules/roles, app/modules/admin_users and
--                      app/modules/email_verification; Admins, Kept and History are about the
--                      administrators that are left after runs of requests.
--   Roles.Rows, Roles.Repository  app/modules/roles/repository.py: its clauses and its statements.
--   Roles              RoleService of app/modules/roles/service.py; its children hold what
--                      resolve_scopes_for_user answers (Scopes), the steps of replace_user_roles (Steps), what it
--                      commits (Outcome), and what it may give (Escalation).
--   AdminUsers.Repository  app/modules/admin_users/repository.py, AdminUsers.Payloads schemas.py of that
--                      module and app/core/etag.py.
--   AdminUsers         AdminUserService of app/modules/admin_users/service.py: get_user, create_user
--                      (Creation), update_user (Update), deactivate_user (Deactivation), resend_invite.
--   AdminUsers.Listing list_users of that module and its cursor; the order (Order), how a page is cut off
--                      (Cuts), a client that follows the cursors (Pages), and limits that are not
--                      positive (Limits).
--   EmailVerification  app/modules/email_verification and scripts/purge_unverified_accounts.py; its children
--                      hold what is proved of verify_email (Verified, Once), of a resent link (RoundTrip),
--                      and of the purge (Purge).
--   Tests              a cache server as a function, sample data, and the theorems at concrete inputs.
--
-- How the code is modelled
--   A table is a list of rows, and a statement that names a row by its primary key works on the first
--   row with that key. An UPDATE whose new row fails a CHECK constraint raises. A service method is
--   the sequence of its statements; it runs in a session of its own, whose writes are lost unless it
--   commits. Sessions run under READ COMMITTED: between a method's reads and its writes other sessions
--   may commit, which `Moment.others` stands for, an arbitrary function on databases where nothing else
--   is said. An exception is a value of SupportError or UsersError; IntegrityError and RuntimeError are
--   `server_error`. UUIDs are numbers, which the code only compares; the new ones of a request are
--   arguments. A timestamp counts microseconds. `datetime.now(UTC)` and `now()` of the database are
--   two clocks.
--
--   The functions of Users.Login and the other users modules that have no counterpart in the code are
--   parts of the method that the module's last function is, cut where it branches. What a request draws
--   at random (tokens, ids, salts, nonces) are arguments.
--
--   The functions of Roles, AdminUsers and EmailVerification that have no counterpart are such parts too.
--   FOR UPDATE is the absence of other sessions' commits from the locking statement to the commit. A row
--   of user_roles is joined to the first role with its id. Texts are sorted by their characters' numbers.
--   A scope list that resolve_scopes_for_user answers is that of Users.World's `scopes_of`, which the
--   login takes as a parameter.
--
--   Parameters: the cache server, the libraries for passwords, hashes, encryption, HOTP and JWT,
--   SHA-256 and the text of values that are hashed, the services of users and roles that other modules
--   call, the mail server (which accepts a message or fails), JSON, base64 and the texts of moments and
--   UUIDs, ILIKE, and what the cache does while the polling loop sleeps. The polling loop runs on the five attempts that the code gives it.
--
-- Not modelled
--   The list endpoints of support and audit, the detail of a ticket, and row-level security; the list of
--   sessions, and the cookies of the users router; request validation by pydantic, which
--   has run before a service is called; logging and the wiring of FastAPI; what a cache does with time
--   (a key expires no earlier than the code asks); the other modules (profile, store), the migrations but for the audit trigger, and the
--   frontend.
pub mod Session
pub mod Counter
pub mod Users
pub mod Account
pub mod Administration
pub mod Roles
pub mod AdminUsers
pub mod EmailVerification
pub mod Support
pub mod Audit
pub mod Valkey
mod Prelude
mod Tests
