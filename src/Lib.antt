-- ===== src/Lib.antt =====
-- The proxy of cloudflare-manual-dns: a client with a scoped token uses the DNS records of a
-- Cloudflare account under the rules of that token. Paths are from the root of the repository.
--
-- Parts, and how they act on one another:
-- - Authz (src/cfproxy/authz): Fqdn is `normalize_fqdn`, Pattern `validate_name_pattern` and
--   `name_matches`, Scope `match_rules`, `is_lock_exempt` and `merge_patch_image`, and Authorizer
--   `authorize_dns_request`, on any action that fetches a record.
-- - Filtering (src/cfproxy/filtering/list_filter.py): the filter of a list and its pages.
-- - Core (src/cfproxy/core): the reply bodies and error codes, in Crypto the scoped tokens, and in
--   Security passwords, sessions and `get_current_user`.
-- - Auth (src/cfproxy/auth): ProxyAuth (proxy_auth.py) resolves the scoped token of a request into its
--   context, with the rules from the cache or the database. OauthCf (oauth_cf.py) is the login at
--   Cloudflare: PKCE, the key set of the issuer, the check of an id token.
-- - Services (src/cfproxy/services): Credentials and Tokens, where the management API registers and
--   deletes credentials, and mints, rotates and revokes tokens; Login (oauth_service.py), from the
--   stored state to the user and the session; AuditLogs, the query of the audit log.
-- - Routers (src/cfproxy/routers, src/cfproxy/main.py): Account (auth.py), Upstreams (credentials.py),
--   ScopedTokens (tokens.py), Logs (audit.py), and in Application proxy_verify.py, proxy_blocked.py and
--   the exception handlers. A route asks Core.Security for the user, calls a service, and makes its
--   reply (Replies, after src/cfproxy/schemas/management.py) of the row or the exception.
-- - Db (src/cfproxy/db): the rows, in Locks the advisory lock around a mutation, with the steps of the
--   server that grants it (Server) and what a session does about it (Phases), and in Users the unique
--   columns of the users.
-- - Upstream (src/cfproxy/upstream/client.py): Client sends the requests, Auth resolves the
--   credential and refreshes OAuth tokens, through the cache of src/cfproxy/cache/redis.py.
-- - Proxy (src/cfproxy/routers/proxy_dns.py): Listing has the lists, Records the create, the GET and
--   the mutations, Audit the audit log. A handler gets its context (Auth),
--   resolves the credential (Upstream), asks the authorizer (Authz) with the live fetch, under the
--   lock (Db), forwards, and audits.
-- - Runtime is the world that the handlers act on. Common has what the parts share.
--
-- How the code is modelled:
-- - A text is the list of its code points. Operations on ASCII texts are exact; on other texts case,
--   IDNA, `isalnum` and `int` are asked of a `Codec`. A number of JSON is an integer.
-- - A pure function that may raise returns a `Result`. A handler is an action on a `World`: the trace
--   of events, the database, the cache and the key set that the process holds; the world comes back
--   beside an exception too.
-- - Everything that is not the repository's code is the `Env`: the upstream's and the issuer's
--   answers, encryption, hashes, JWTs, whether the lock is got or the audit stored, the clock, the
--   settings. Its answers may depend on the whole trace, so the upstream and who holds a lock may
--   change in between; the database and the cache change by the modelled actions only.
-- - A Python value that the code only looks into is a `Json`, with the exceptions of the wrong shape.
-- - Several requests at once are a schedule, the list of what each session does in turn
--   (Db.Locks.Server); Proxy.Records.Serial has mutations of one record in it. What the others do to the upstream or hold
--   of the locks is in the answers that the environment of each request gives.
-- - The two loops over upstream pages run on fuel, an argument of the lists; running out of it is the
--   exception `out_of_fuel`, which no code of the program raises.
--
-- Not modelled: the web framework and its validation of requests, the connection to the database
-- (`engine.connect`, a failing RELEASE_LOCK, the row lock of `with_row_lock`, foreign keys, clashes
-- with the unique columns of a token), the time to live of a cache entry, the limit on the digits
-- of `int`, a cached rule of another shape than the program writes (an exception on load here, on
-- use there), a header value that is no text (an exception before the request here, within it
-- there), a value of another type than its column's (a TypeError when it is written), the texts of
-- the exceptions of codecs and decoders, and the settings, the set-up of engine and clients, and
-- the console, which have no logic of their own.
pub mod Common
pub mod Auth
pub mod Authz
pub mod Filtering
pub mod Core
pub mod Db
pub mod Runtime
pub mod Services
pub mod Upstream
pub mod Proxy
pub mod Routers
