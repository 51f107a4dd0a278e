-- ===== src/Auth/Machine/Frames.antt =====
-- frontend/lib/auth.ts: what each operation does to the three items of the session.
use mathlib.Core.List.{Memᴰ}
use go_analyze.Auth.Base64Url.{random_string}
use go_analyze.Prelude.{
  ℕ, String, ◌≡◌, refl, sym, ◌⊎◌, inl, inr, Option, none, some, List, [], ◌∷◌, arith, Bool-cases,
  Option-cases,
}
use go_analyze.Platform.{
  Storage, get_item, set_item, remove_item, Room, try_set_item, is_ok_status, FetchReply, rejected,
  replied,
}
use go_analyze.Auth.Tokens.{
  token_storage_key, pkce_verifier_key, auth_state_key, post_login_redirect_key, store_tokens,
  clear_tokens, tokens_of, StoredTokens, AuthEnv, TokenData,
}
use go_analyze.Auth.Refresh.{settle_refresh}
use go_analyze.Auth.Login.{store_login, login, settle_login, Crypto}
use go_analyze.Auth.Machine.{grant_tokens, grants_of, Grant}

-- What is stored under the key now was there before.
abbrev pub Keeps : String → Storage → Storage → Type 0
Keeps key s t = (x : String) → get_item key t ≡ some x → get_item key s ≡ some x

-- What is stored under the key now is `new`, or was there before.
abbrev pub KeepsOr : String → String → Storage → Storage → Type 0
KeepsOr new key s t = (x : String) → get_item key t ≡ some x → (x ≡ new) ⊎ (get_item key s ≡ some x)

-- What `login` does.
pub record IsLoginFrame (verifier state : String) (s t : Storage) : Type 0 where
  pub tokens_kept : Keeps token_storage_key s t
  pub verifier_new : KeepsOr verifier pkce_verifier_key s t
  pub state_new : KeepsOr state auth_state_key s t

-- What an operation does that only stores tokens or removes items.
pub record IsGrantFrame (env : AuthEnv) (grants : List Grant) (s t : Storage) : Type 0 where
  pub tokens_granted :
      (x : String)
      → get_item token_storage_key t ≡ some x
      → ((g : Grant) × Memᴰ g grants × (x ≡ env.stringify (grant_tokens g)))
        ⊎ (get_item token_storage_key s ≡ some x)
  pub verifier_kept : Keeps pkce_verifier_key s t
  pub state_kept : Keeps auth_state_key s t

some_inj : {A : Type 0} {a b : A} → ◌≡◌ {A = Option A} (some a) (some b) → a ≡ b
some_inj e = cc

same-IsLoginFrame : (verifier state : String) (s : Storage) → IsLoginFrame verifier state s s
same-IsLoginFrame verifier state s = record {
  tokens_kept = λ x e. e;
  verifier_new = λ x e. inr e;
  state_new = λ x e. inr e;
}

module _ (verifier state after : String) (s : Storage) where
  one_written : IsLoginFrame verifier state s (set_item pkce_verifier_key verifier s)
  unfolding get_item set_item
  one_written = record {
    tokens_kept = λ x e. e;
    verifier_new = λ x e. inl (sym (some_inj e));
    state_new = λ x e. inr e;
  }

  two_written :
      IsLoginFrame verifier state s
        (set_item auth_state_key state (set_item pkce_verifier_key verifier s))
  unfolding get_item set_item
  two_written = record {
    tokens_kept = λ x e. e;
    verifier_new = λ x e. inl (sym (some_inj e));
    state_new = λ x e. inl (sym (some_inj e));
  }

  three_written : IsLoginFrame verifier state s (
      set_item post_login_redirect_key after
        (set_item auth_state_key state (set_item pkce_verifier_key verifier s)))
  unfolding get_item set_item
  three_written = record {
    tokens_kept = λ x e. e;
    verifier_new = λ x e. inl (sym (some_inj e));
    state_new = λ x e. inl (sym (some_inj e));
  }

  -- However many of the three writes of `login` the browser takes.
  pub store_login-IsLoginFrame :
      (room : Room) → IsLoginFrame verifier state s (store_login room verifier state after s).0
  unfolding store_login try_set_item
  store_login-IsLoginFrame room =
      let s₁ = set_item pkce_verifier_key verifier s in
      let s₂ = set_item auth_state_key state s₁ in
      elim (Bool-cases (room s pkce_verifier_key verifier)) [
        | inr full ↦ rw (store_login, full) (same-IsLoginFrame verifier state s)
        | inl e₁ ↦ elim (Bool-cases (room s₁ auth_state_key state)) [
          | inr full ↦ rw (store_login, e₁, full) one_written
          | inl e₂ ↦ elim (Bool-cases (room s₂ post_login_redirect_key after)) [
            | inr full ↦ rw (store_login, e₁, e₂, full) two_written
            | inl e₃ ↦ rw (store_login, e₁, e₂, e₃) three_written
          ]
        ]
      ]

pub login-IsLoginFrame :
    (env : AuthEnv) (crypto : Crypto) (verifier_bytes state_bytes : List ℕ) (after : String)
    (s : Storage)
    → IsLoginFrame
        (random_string crypto.btoa verifier_bytes 64)
        (random_string crypto.btoa state_bytes 24)
        s
        (login env crypto verifier_bytes state_bytes after s).0
unfolding login
login-IsLoginFrame env crypto verifier_bytes state_bytes after s =
    store_login-IsLoginFrame (random_string crypto.btoa verifier_bytes 64)
      (random_string crypto.btoa state_bytes 24) after s env.room

pub Keeps-remove_item : (key : String) (s : Storage) (k : String) → Keeps k s (remove_item key s)
unfolding get_item remove_item
Keeps-remove_item key s k x e = ground arith

module _ (env : AuthEnv) where
  pub same-IsGrantFrame : (grants : List Grant) (s : Storage) → IsGrantFrame env grants s s
  same-IsGrantFrame grants s = record {
    tokens_granted = λ x e. inr e;
    verifier_kept = λ x e. e;
    state_kept = λ x e. e;
  }

  -- Tokens of a grant that were stored.
  stored-IsGrantFrame :
      (g : Grant) (s t : Storage)
      → store_tokens env (grant_tokens g) s ≡ some t
      → IsGrantFrame env (g ∷ []) s t
  unfolding store_tokens try_set_item get_item set_item
  stored-IsGrantFrame g s t h =
      let e : t ≡ set_item token_storage_key (env.stringify (grant_tokens g)) s = ground arith in
      rw e (record {
        tokens_granted = λ x e'. inl (g, Memᴰ.head refl, sym (some_inj e'));
        verifier_kept = λ x e'. e';
        state_kept = λ x e'. e';
      })

  -- An operation that removes items afterwards.
  pub removed-IsGrantFrame :
      (key : String) (grants : List Grant) (s t : Storage)
      → IsGrantFrame env grants s t
      → IsGrantFrame env grants s (remove_item key t)
  removed-IsGrantFrame key grants s t f = record {
    tokens_granted = λ x e. f.tokens_granted x (Keeps-remove_item key t token_storage_key x e);
    verifier_kept = λ x e. f.verifier_kept x (Keeps-remove_item key t pkce_verifier_key x e);
    state_kept = λ x e. f.state_kept x (Keeps-remove_item key t auth_state_key x e);
  }

  pub settle_login-IsGrantFrame :
      (now : ℕ) (s : Storage) (reply : FetchReply TokenData)
      → IsGrantFrame env (grants_of none now reply) s (settle_login env now s reply).1
  unfolding settle_login
  settle_login-IsGrantFrame now s rejected = same-IsGrantFrame [] s
  settle_login-IsGrantFrame now s (replied status none) = elim (Bool-cases (is_ok_status status)) [
    | inl ok ↦ rw (settle_login, ok) (same-IsGrantFrame [] s)
    | inr bad ↦ rw (settle_login, bad) (same-IsGrantFrame [] s)
  ]
  settle_login-IsGrantFrame now s (replied status (some d)) =
      let g : Grant = record { kept = none; seen_at = now; answer = d } in
      elim (Bool-cases (is_ok_status status)) [
        | inr bad ↦ rw (settle_login, bad) (same-IsGrantFrame [] s)
        | inl ok ↦ elim (Option-cases (store_tokens env (tokens_of none now d) s)) [
          | inl full ↦ rw (settle_login, ok, full) (same-IsGrantFrame (g ∷ []) s)
          | inr (t, stored) ↦
              rw (settle_login, ok, stored)
                (removed-IsGrantFrame auth_state_key (g ∷ []) s (remove_item pkce_verifier_key t) (
                  removed-IsGrantFrame pkce_verifier_key (g ∷ []) s t
                    (stored-IsGrantFrame g s t stored)))
        ]
      ]

  pub settle_refresh-IsGrantFrame :
      (current : StoredTokens) (now : ℕ) (s : Storage) (reply : FetchReply TokenData)
      → IsGrantFrame env
          (grants_of current.refresh_token now reply)
          s
          (settle_refresh env current now s reply).1
  unfolding settle_refresh clear_tokens
  settle_refresh-IsGrantFrame current now s rejected = same-IsGrantFrame [] s
  settle_refresh-IsGrantFrame current now s (replied status none) =
      elim (Bool-cases (is_ok_status status)) [
        | inl ok ↦ rw (settle_refresh, ok) (same-IsGrantFrame [] s)
        | inr bad ↦
            rw (settle_refresh, bad)
              (removed-IsGrantFrame token_storage_key [] s s (same-IsGrantFrame [] s))
      ]
  settle_refresh-IsGrantFrame current now s (replied status (some d)) =
      let g : Grant = record { kept = current.refresh_token; seen_at = now; answer = d } in
      elim (Bool-cases (is_ok_status status)) [
        | inr bad ↦
            rw (settle_refresh, bad)
              (removed-IsGrantFrame token_storage_key [] s s (same-IsGrantFrame [] s))
        | inl ok ↦
            elim (Option-cases (store_tokens env (tokens_of current.refresh_token now d) s)) [
              | inl full ↦ rw (settle_refresh, ok, full) (same-IsGrantFrame (g ∷ []) s)
              | inr (t, stored) ↦ rw (settle_refresh, ok, stored) (stored-IsGrantFrame g s t stored)
            ]
      ]
