-- ===== src/Lib.antt =====
-- The Personal-Blog-Service: a NestJS backend with posts and likes, whose write requests are
-- made safe to repeat (Idempotency-Key), whose users carry a pair of tokens, and whose clients are rate
-- limited.
--
-- Parts, and the files that model them:
--   Failure        src/constant/error-code.enum.ts, src/exception, src/filter: the exception classes,
--                  the three filters, and the response a thrown error ends in (`respond`).
--   Exec           methods that change state, await and may throw: the state comes back beside the
--                  value or the error. `catch_error` is `catchError` and `try … catch`.
--   Redis          the Redis server: a record of commands with the documented law of each. ioredis and
--                  the server are no part of the repository. Redis/Memory instantiates it.
--   Orm            a TypeORM table with its query-result cache: a record of queries with the documented
--                  law of each. Orm/Memory instantiates it.
--   Web            what the handlers read of a request and write to a response.
--   Idempotency    src/idempotency/idempotency.service.ts: `get`, `set_pending`, `set_completed` and
--                  `set_completed_failure` over the Redis client; JSON is a parameter.
--   Interceptor    src/interceptor/idempotency-key.interceptor.ts: `intercept` with its branches, in
--                  one run (Branches, Kept, Replay, Outcome, Once) and with concurrent requests (Race), where
--                  each await is a point at which any other request may step; Starts counts how often
--                  the code between two awaits starts the handler, by running it on one that counts, and
--                  Exclusion keeps the handlers apart.
--   Throttler      src/throttler: the Lua script as one atomic step over the commands it calls,
--                  `increment` around it, and `get_tracker`.
--   Utils          src/utils: durations, cache ids, pages, and Cipher, the encrypted keys.
--   Auth           src/auth/auth.guard.ts and the accounts of src/user: Platform (entities, the table,
--                  the ciphers and tokens as parameters), Repository, Jwt, Service, Guard; Joined
--                  follows an account from its join to a login, Google a login with Google,
--                  Jwt/Rotation a token that was replaced, Repository/Stale a session that is read while
--                  it changes, and Guard/Mixed two tokens that do not belong together.
--   UserInfo       the user information of src/user: Repository and Service over a table.
--   Likes          the likes of src/blog: Repository over a table of pairs, Service with the grouping.
--                  Groups and Nicknames follow the map of nicknames that the posts show, Missing a
--                  like by a user without information.
--   Posts          the posts of src/blog: Table (the queries and their laws), Repository, Service;
--                  Listing and Answers follow the listings to the pages of Fresh, and Writes what
--                  creations, changes and deletions leave alone.
--   Pipe           src/pipe/decrypt-primary-key.pipe.ts: `transform` of an encrypted key; Global is the
--                  pipe that every argument passes first.
--   Encryption     src/interceptor/encrypt-primary-key.interceptor.ts: Values (the objects of a
--                  response), the loops over the marked fields, and Posts, the responses of the posts.
--   Controllers    src/blog/controller, src/user/controller with their parameters and the cookie of
--                  src/user/interceptor: Posts, Likes, UserInfo, Accounts, Cookie; Callers,
--                  OwnLikes and OwnInfo say for whom a route writes, Links and Sessions follow ids and
--                  cookies to the next request. The router is a parameter with the law of its decoding.
--   App            src/app.module.ts: the guards and the idempotency interceptor in their order before
--                  a method of a controller (Entry), with the posts, the likes and the user information
--                  as its tables (Owners), a request that is repeated (Replay) or refused (Refused).
--   Config         src/config and the limits of src/app.module.ts: the schema of the environment
--                  (Validation), what each part reads of it, and Accepted, what an accepted
--                  environment configures. Joi, dotenv and ms are parameters.
--   Migrations     src/migrations: the statements of both migrations as data, and run over a database
--                  whose schema laws (Schema) are those of MySQL.
--   Health         src/health: the endpoint over the outcomes of its checks.
--   Common         what the others share.
-- A request passes the guard, the throttler and the interceptor; what any of them throws reaches the
-- filters. The guard calls the token service, which reads the session through the repository; the
-- interceptor calls the idempotency store.
--
-- Conventions: numbers are natural, and where a number of the source may be negative (PTTL) an
-- integer is written out. Times are milliseconds. A value that is absent is `none`, for undefined
-- and null. The three rounds of `hashing_password` are structural recursion on the rounds left. The
-- loops of the encryption recur on the fields and the elements. The only fuel is that of `decimal`,
-- which prints a number n with n + 1 rounds: each round divides what is left by ten, and one
-- suffices for 0; Common/Text/Digits reads the text back. crypto-js, jsonwebtoken and
-- google-auth-library are the record `Crypto`.
--
-- Not modelled: log lines, Swagger metadata, the wiring of modules and providers, the start and the
-- shutdown of the server, the paths and the log format of the configuration, and the validation of
-- bodies and queries, which a library does before the routes: its whitelist leaves a body the fields
-- of its DTO alone. Texts in the tables are compared exactly; the collation of the database
-- (docker-compose.yaml), which takes capitals for small letters, is not modelled.
pub mod Common
pub mod Failure
pub mod Exec
pub mod Redis
pub mod Web
pub mod Idempotency
pub mod Interceptor
pub mod Throttler
pub mod Orm
pub mod Utils
pub mod Auth
pub mod UserInfo
pub mod Likes
pub mod Pipe
pub mod Posts
pub mod Encryption
pub mod Controllers
pub mod App
pub mod Migrations
pub mod Config
pub mod Health
