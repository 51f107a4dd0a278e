-- ===== src/Lib.antt =====
-- A model of the frontend of GoAnalyze, a document intelligence platform for governments: the
-- TypeScript program under frontend/. It signs in at a Keycloak server, calls the platform's API,
-- remembers what it has seen of documents in the browser's storage, uploads documents in three
-- requests, and sets the platform up in a wizard. The pages call the hooks and the API client, the
-- client asks the token functions for an access token, and these read and write the storage.
--
-- Files and what they model:
--   Prelude, Prelude/*    shared names, Boolean tests, lists and texts over the native numbers
--   Platform, Json        Web Storage, the answers of `fetch`, files, and parsed JSON values
--   Config                frontend/lib/config.ts
--   Auth/Tokens, Auth/Refresh, Auth/Login, Auth/Base64Url
--                         frontend/lib/auth.ts: getStoredTokens, storeTokens, clearTokens,
--                         isTokenExpired, refreshTokens, getValidAccessToken, isAuthenticated, login,
--                         completeLogin, consumePostLoginRedirect, logout, base64UrlEncode
--   Auth/Jwt              frontend/lib/auth.ts: decodeJwt
--   Auth/Machine          frontend/lib/auth.ts: a session as steps, with requests under way (Machine),
--                         the calls of a page as runs of these steps (Runs), and the storage
--                         that the session shares with the document cache (Sharing); the stored
--                         tokens as a register (Register)
--   Auth/Session          frontend/hooks/useAuth.ts, frontend/components/layout/AppShell.tsx,
--                         frontend/app/page.tsx, frontend/app/login/page.tsx
--   Auth/Callback         frontend/app/login/callback/page.tsx
--   Auth/Journey          the way from the shell over the sign-in page and the provider back to the
--                         page that was asked for
--   Types                 frontend/lib/types.ts
--   Api/*                 frontend/lib/api.ts: ApiError and kindForStatus (Errors), buildUrl (Url),
--                         the parts of request (Request), request as a whole with its token
--                         (Client), and the endpoints (Endpoints)
--   Cache, Cache/*        frontend/lib/documentCache.ts, with the writes of a session (Runs)
--                         and their order (Order)
--   Hex                   frontend/lib/utils.ts: sha256Hex
--   Upload, Upload/*      frontend/components/documents/DocumentUpload.tsx: the state and its updates
--                         (Upload), runUpload (Run), the handlers (Form), what it shows (View)
--   Setup, Setup/*        frontend/app/setup/page.tsx: the edits and the request (Setup), the steps
--                         (Steps), their inputs (Panels), isSetupResponse (Response), handleFinish
--                         (Finish), the timer of the redirect and the end of the page (Life), what
--                         the wizard shows (View)
--   Ui                    frontend/components/ui/States.tsx: the parts of a page, as data
--   Hooks, Hooks/*        frontend/hooks/useSearch.ts, useDocuments.ts and useRag.ts, and
--                         frontend/app/ai-research/page.tsx
--   Pages/*               frontend/components/ui/Pagination.tsx with frontend/app/search/page.tsx,
--                         frontend/components/ai-research/CitationBuilder.tsx,
--                         frontend/app/environmental-reviews/page.tsx,
--                         frontend/components/layout/Breadcrumbs.tsx and Sidebar.tsx, with the
--                         pages under frontend/app that they link to (Routes),
--                         frontend/components/audit/AuditTable.tsx with frontend/app/audit/page.tsx,
--                         frontend/app/system/page.tsx, frontend/lib/utils.ts with
--                         frontend/components/ui/Badges.tsx,
--                         frontend/app/documents/page.tsx (Documents, and its errors in
--                         Documents/Failures),
--                         frontend/app/documents/[document_id]/page.tsx (Detail, Download,
--                         Processing), frontend/app/analysis/[document_id]/page.tsx (Analysis,
--                         Processing), frontend/app/dashboard/page.tsx (Dashboard),
--                         frontend/app/cases (Cases), frontend/components/layout (Shell),
--                         frontend/components/ai-research/ResearchHistory.tsx (Research), and whole
--                         pages, put together of these parts (Screens)
--   Tests/*               the theorems at concrete inputs
--
-- How the code is read. A storage is a map from keys to texts that a function takes and gives back; a
-- write that the browser refuses is `none`. An awaited answer is a parameter, and so is what other
-- tasks do to the storage, or the user to the form, during the wait. Each component's state is a
-- record, its `set…` calls are updates, and interleavings of clicks and answers are lists of events.
-- A field that may be `undefined` or `null` is an `Option`, a field that may be either is two. All
-- recursion is structural, on lists and texts, so no fuel is needed. Numbers are natural; times in
-- milliseconds stop at 0 where the code subtracts 30 s from an expiry, which changes no test.
--
-- A timer is a handle in a list, and whether it fires is an event of the trace.
--
-- Parameters, with what is assumed of them named in the theorems: `JSON.parse` and `JSON.stringify`,
-- the URL parser, `btoa` and `atob`, SHA-256 and random bytes, `encodeURIComponent` and its inverse,
-- `trim`, the printing of numbers and dates (Intl, `toFixed` of a score), the logarithm of a size, the
-- identity provider and the API. `toFixed(1)` of a size is computed: its quotient is by a power of 2.
--
-- Not modelled: the markup, styles and fixed texts of the pages, the arithmetic of scores, which is a
-- parameter, the backend in Python, and the deployment. The exceptions of `new URL` and of
-- `createObjectURL` are not computed: they count as a `fetch` that failed and as a download that threw,
-- which the same `catch` takes. The blob of an answer that is no JSON is cast to the type that the
-- caller expects, as in the source.
pub mod Prelude
pub mod Platform
pub mod Config
pub mod Hex
pub mod Auth
pub mod Types
pub mod Api
pub mod Cache
pub mod Upload
pub mod Json
pub mod Setup
pub mod Ui
pub mod Hooks
pub mod Pages
pub mod Tests
