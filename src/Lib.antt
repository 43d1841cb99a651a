-- ===== src/Lib.antt =====
-- A model of the KeyForge authorization server, an OAuth 2.1 and OpenID Connect provider that runs
-- as a worker with a database and with durable objects.
--
-- The parts, and the files that model them. Paths are from the repository's root.
--
-- - Prelude: tests on native numbers and texts, list and option lemmas.
-- - Env: the worker's bindings that the model reads, the switch of the mode that skips validation
--   (src/operations/yolo.ts) and the constants of src/config.ts.
-- - Security/Crypto: src/security/crypto.ts, src/utils/base64url.ts and src/tokens/token-hash.ts.
-- - Oauth: Pkce (src/oauth/pkce.ts), Errors (src/security/errors.ts), Scopes (src/oauth/scopes.ts and
--   src/oauth/scope-policy.ts), PermissionRules (src/oauth/permission-rules.ts), UserTokenPolicy
--   (src/oauth/user-token-policy.ts and the loading of rules in
--   src/db/queries/permission-group-rules.ts), Redirect (src/security/redirect-uri.ts and
--   src/oauth/redirect.ts), Domain (src/types/domain.ts), Resources (src/oauth/resources.ts), Consent
--   (src/oauth/consent.ts), RequestLimits (src/oauth/request-limits.ts and
--   src/oauth/client-identifier.ts) and the endpoints: Authorize (src/oauth/authorize.ts),
--   DeviceAuthorization (src/oauth/device-authorization.ts), Revoke (src/oauth/revoke.ts), and the
--   grants of the token endpoint, CodeGrant, RefreshGrant and DeviceGrant
--   (src/oauth/token/authorization-code.ts, refresh-token.ts and device-code.ts), which share Tokens
--   (src/oauth/token/issue.ts).
-- - Do: the durable objects of src/do. RateLimit (RateLimitDO.ts), OneTime (base.ts),
--   AuthorizationCode (AuthorizationCodeDO.ts, over the storage of OneTime) and RefreshFamily
--   (RefreshTokenFamilyDO.ts).
-- - Device: the rows of device sessions, src/db/queries/devices.ts with the keys of
--   migrations/0001_initial.sql, what the administration does to them (src/db/queries/admin-devices.ts,
--   resources.ts and clients.ts), and in Removal their cleanup.
-- - Cleanup: the bounded deletions of src/operations/maintenance.ts.
-- - RefreshTokens: the rows of refresh tokens together with the objects that they mirror,
--   src/db/queries/tokens.ts and src/tokens/refresh-token-revocation.ts, with Issue and Rotate for the
--   two functions of src/tokens/refresh-token.ts.
-- - Utils/Random: the user codes of src/utils/random.ts.
-- - Keys: the keyring of signing keys and its rotation, src/tokens/key-rotation.ts.
-- - Lease: the leases on jobs that one worker does at a time, src/operations/maintenance.ts and
--   src/tokens/key-rotation.ts.
--
-- How they interact: Authorize checks a request and stores a code in an AuthorizationCode object;
-- CodeGrant redeems it, which uses Pkce and Crypto, and DeviceGrant consumes a session of Device, which
-- DeviceAuthorization added. Every grant asks Resources for the audience, which uses Scopes and
-- Redirect, and Consent and UserTokenPolicy for the user's access, which resolves PermissionRules. Tokens
-- makes the response, for which RefreshTokens.Issue starts a family: a row and a RefreshFamily object.
-- RefreshGrant rotates the family through RefreshTokens.Rotate, which asks the object first and
-- then its row.
--
-- Correspondence. A function of the source is a function of the same name in snake case. A durable
-- object is a record of its storage keys, `none` where a key is missing, and a handler maps its
-- arguments, the clock's readings and the storage to its answer and the storage after it. The runtime
-- runs the handlers of one object one after another, so a history is a list of calls. The objects of
-- one class are a function from their names. A table of the database is the list of its rows, and one
-- statement on it, or one batch, is one step. A handler that throws an OAuthError returns `thrown` with
-- its code; an error that is none, such as a database that does not answer, is `thrown server_error`.
-- Whether the database and the objects answer is an argument. Numbers that the source keeps as
-- nonnegative integers are natural numbers; where it subtracts, the model compares or writes out the
-- bound. All definitions are structurally recursive. The one loop of the source without a bound, in
-- generateUserCode, runs on the list of its random arrays, and is `none` if these are used up.
--
-- What the platform implements is a parameter: text encoding, hashing and base64 (Platform, with the
-- hypothesis IsEncoding that the encoding of texts is injective and yields bytes), the parser of URLs
-- (ParseUrl), the parser of JSON conditions (RuleText), the signing of tokens (Signer), and what the
-- database answers (Directory, View, RuleRow), and how it orders texts (Cleanup).
--
-- Not modelled: how the endpoint of Authorize finds a client, which may fetch a metadata document and is
-- an argument; routes, views, the console and the administration, which are markup, forms and queries;
-- mail, media and passkeys, which are packages' work; that the jobs of maintenance run under their leases,
-- and the caches of the signing keys; sessions and password hashing; and the texts of errors and audit records.
pub mod Prelude
pub mod Env
pub mod Security
pub mod Utils
pub mod Cleanup
pub mod Keys
pub mod Lease
pub mod Oauth
pub mod Do
pub mod Device
pub mod RefreshTokens
