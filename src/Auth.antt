-- ===== src/Auth.antt =====
-- frontend/lib/auth.ts: the OIDC code flow with PKCE over sessionStorage. A function that runs in
-- the browser takes the storage and returns the new one; an `await` on `fetch` takes what the other
-- tasks of the page did to the storage meanwhile, and the time at which it was resumed.
pub mod Base64Url
pub mod Jwt
pub mod Tokens
pub mod Refresh
pub mod Login
pub mod Session
pub mod Callback
pub mod Machine
pub mod Journey
