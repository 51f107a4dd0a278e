-- ===== src/Auth/Refresh/Race.antt =====
-- frontend/lib/auth.ts: two calls of `refreshTokens` that are under way at once.
use go_analyze.Prelude.{
  ℕ, ◌+◌, ◌<◌, ◌≡◌, true, false, Option, none, some, [], ◌∷◌, arith, is_truthy, truthy_or,
}
use go_analyze.Platform.{Storage, is_ok_status, Form, FetchReply, replied}
use go_analyze.Auth.Tokens.{get_stored_tokens, is_token_expired, StoredTokens, AuthEnv, TokenData}
use go_analyze.Auth.Refresh.{refresh_form, refresh_tokens, is_authenticated, Refreshed}
use go_analyze.Auth.Refresh.Laws.{refresh_tokens_refused, refresh_tokens_stored}
use go_analyze.Auth.Refresh.Stored.{IsJson}

module _ (env : AuthEnv) (first second : Form → FetchReply TokenData) where
  -- A call of `refreshTokens` during whose wait another one runs from its start to its end.
  unfoldable pub overlapping : ℕ → ℕ → Storage → Refreshed
  unfolding refresh_tokens
  overlapping now later s =
      refresh_tokens env second (λ x. (refresh_tokens env first (λ y. y) now x).session) later s

  -- Two refreshes of the same stored tokens overlap, both with the same form. If the token endpoint
  -- grants the first, whose tokens are stored and survive the way through JSON, and answers the
  -- second with a status outside 200 to 299, as it does where a refresh token can be used once: the
  -- page is signed in after the first, as long as the token lasts, 30 s less, and the second answer
  -- signs it out for good.
  pub overlapping-signed_out :
      (tokens t : StoredTokens) (now later at status status' : ℕ) (d : TokenData)
      (body : Option TokenData) (s : Storage)
      → let form = refresh_form env (truthy_or tokens.refresh_token "") in
        get_stored_tokens env (some s) ≡ some tokens
        → is_truthy tokens.refresh_token ≡ true
        → IsJson env t
        → first form ≡ replied status (some d)
        → (refresh_tokens env first (λ y. y) now s).tokens ≡ some t
        → at + 30000 < t.expires_at
        → second form ≡ replied status' body
        → is_ok_status status' ≡ false
        → let granted = refresh_tokens env first (λ y. y) now s in
          let r = overlapping now later s in
          (is_authenticated env at (some granted.session) ≡ true)
          × (r.tokens ≡ none)
          × (r.sent ≡ form ∷ [])
          × ((after : ℕ) → is_authenticated env after (some r.session) ≡ false)
  unfolding overlapping is_authenticated is_token_expired
  overlapping-signed_out tokens t now later at status status' d body s stored y json given brought
        soon refused bad =
      let kept =
        (refresh_tokens_stored env first (λ y. y) tokens t now status d s json stored y given
          brought).0 in
      let (nothing, asked, out) =
        refresh_tokens_refused env second (λ x. (refresh_tokens env first (λ y. y) now x).session)
          tokens later status' body s stored y refused bad in
      (rw (is_authenticated, kept) (ground arith), nothing, asked, out)
