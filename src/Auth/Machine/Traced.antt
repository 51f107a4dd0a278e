-- ===== src/Auth/Machine/Traced.antt =====
-- frontend/lib/auth.ts: where everything in the session's storage comes from.
use mathlib.Core.List.{Memᴰ}
use mathlib.Core.List.Memᴰ
use go_analyze.Prelude.{
  code, String, ◌≡◌, ap, inl, inr, true, some, List, [], ◌∷◌, ◌++◌, arith, coalesce, All, All-drop,
}
use go_analyze.Platform.{Storage, get_item, set_item}
use go_analyze.Auth.Tokens.{
  token_storage_key, pkce_verifier_key, auth_state_key, post_login_redirect_key, clear_tokens,
  AuthEnv,
}
use go_analyze.Auth.Login.{state_accepted, consume_post_login_redirect, logout, Crypto}
use go_analyze.Auth.Login.Flow.{state_accepted_inv}
use go_analyze.Auth.Machine.{
  grant_tokens, first_world, is_other_key, Pending, exchanging, refreshing, Grant, World, Step,
  logs_in, comes_back, code_answered, asks_refresh, refresh_answered, goes_on, logs_out,
  writes_else, Reach, here, extended,
}
use go_analyze.Auth.Machine.Frames.{
  login-IsLoginFrame, same-IsGrantFrame, removed-IsGrantFrame, settle_login-IsGrantFrame,
  settle_refresh-IsGrantFrame, IsLoginFrame, IsGrantFrame,
}

-- A login of this session drew the verifier, and one drew the state.
abbrev pub VerifierDrawn : String → List (String × String) → Type 0
VerifierDrawn v drawn = (st : String) × Memᴰ (v, st) drawn

abbrev pub StateDrawn : String → List (String × String) → Type 0
StateDrawn st drawn = (v : String) × Memᴰ (v, st) drawn

-- A code is exchanged with a verifier that was drawn, for a state that was drawn.
abbrev pub PendingDrawn : List (String × String) → Pending → Type 0
PendingDrawn drawn (exchanging code v st) = VerifierDrawn v drawn × StateDrawn st drawn
PendingDrawn drawn (refreshing current) = Unit {0}

pub record IsTraced (env : AuthEnv) (w : World) : Type 0 where
  pub tokens_traced :
      (raw : String)
      → get_item token_storage_key w.storage ≡ some raw
      → (g : Grant) × Memᴰ g w.granted × (raw ≡ env.stringify (grant_tokens g))
  pub verifier_traced :
      (v : String) → get_item pkce_verifier_key w.storage ≡ some v → VerifierDrawn v w.drawn
  pub state_traced :
      (st : String) → get_item auth_state_key w.storage ≡ some st → StateDrawn st w.drawn
  pub pending_traced : All (PendingDrawn w.drawn) w.pending

module _ (env : AuthEnv) where
  -- A step that stores no tokens but those of `grants`, draws nothing and adds no request.
  granted-IsTraced :
      (w : World) (grants : List Grant) (t : Storage) (pending : List Pending)
      → IsGrantFrame env grants w.storage t
      → All (PendingDrawn w.drawn) pending
      → IsTraced env w
      → IsTraced env (record w { storage = t; pending = pending; granted = grants ++ w.granted })
  granted-IsTraced w grants t pending f p h = record {
    tokens_traced = λ raw e. elim (f.tokens_granted raw e) [
      | inl (g, m, same) ↦ (g, Memᴰ.append_left w.granted m, same)
      | inr old ↦
          let (g, m, same) = h.tokens_traced raw old in (g, Memᴰ.append_right grants m, same)
    ];
    verifier_traced = λ v e. h.verifier_traced v (f.verifier_kept v e);
    state_traced = λ st e. h.state_traced st (f.state_kept st e);
    pending_traced = p;
  }

  PendingDrawn-cons :
      (p : Pending) (pair : String × String) (drawn : List (String × String))
      → PendingDrawn drawn p
      → PendingDrawn (pair ∷ drawn) p
  PendingDrawn-cons (exchanging code v st) pair drawn ((st', m), (v', n)) =
      ((st', Memᴰ.tail m), (v', Memᴰ.tail n))
  PendingDrawn-cons (refreshing current) pair drawn h = tt

  All-PendingDrawn-cons :
      (ps : List Pending) (pair : String × String) (drawn : List (String × String))
      → All (PendingDrawn drawn) ps
      → All (PendingDrawn (pair ∷ drawn)) ps
  All-PendingDrawn-cons [] pair drawn h = tt
  All-PendingDrawn-cons (p ∷ ps) pair drawn (h, hs) =
      (PendingDrawn-cons p pair drawn h, All-PendingDrawn-cons ps pair drawn hs)

  login-IsTraced :
      (w : World) (v st : String) (t : Storage)
      → IsLoginFrame v st w.storage t
      → IsTraced env w
      → IsTraced env (record w { storage = t; drawn = (v, st) ∷ w.drawn })
  login-IsTraced w v st t f h = record {
    tokens_traced = λ raw e. h.tokens_traced raw (f.tokens_kept raw e);
    verifier_traced = λ x e. elim (f.verifier_new x e) [
      | inl new ↦ (st, Memᴰ.head (ap (λ (y : String). (y, st)) new))
      | inr old ↦ let (st', m) = h.verifier_traced x old in (st', Memᴰ.tail m)
    ];
    state_traced = λ x e. elim (f.state_new x e) [
      | inl new ↦ (v, Memᴰ.head (ap (λ (y : String). (v, y)) new))
      | inr old ↦ let (v', m) = h.state_traced x old in (v', Memᴰ.tail m)
    ];
    pending_traced = All-PendingDrawn-cons w.pending (v, st) w.drawn h.pending_traced;
  }

  returned-PendingDrawn :
      (w : World) (code state : String)
      → state_accepted
          (get_item pkce_verifier_key w.storage)
          (get_item auth_state_key w.storage)
          state
        ≡ true
      → IsTraced env w
      → PendingDrawn w.drawn
          (exchanging code (coalesce (get_item pkce_verifier_key w.storage) "") state)
  returned-PendingDrawn w code state good h =
      let (v, full, st) =
        state_accepted_inv (get_item pkce_verifier_key w.storage)
          (get_item auth_state_key w.storage) state good in
      (
        h.verifier_traced (coalesce (get_item pkce_verifier_key w.storage) "") v,
        h.state_traced state st,
      )

  IsGrantFrame-logout : (s : Storage) → IsGrantFrame env [] s (coalesce (logout env (some s)).0 s)
  unfolding logout clear_tokens
  IsGrantFrame-logout s =
      removed-IsGrantFrame env token_storage_key [] s s (same-IsGrantFrame env [] s)

  IsGrantFrame-consume : (s : Storage) → IsGrantFrame env [] s (consume_post_login_redirect s).1
  unfolding consume_post_login_redirect
  IsGrantFrame-consume s =
      removed-IsGrantFrame env post_login_redirect_key [] s s (same-IsGrantFrame env [] s)

  IsGrantFrame-else :
      (k v : String) (s : Storage) → is_other_key k ≡ true → IsGrantFrame env [] s (set_item k v s)
  unfolding get_item set_item
  IsGrantFrame-else k v s h = record {
    tokens_granted = λ x e. inr (ground (arith, e, h));
    verifier_kept = λ x e. ground (arith, e, h);
    state_kept = λ x e. ground (arith, e, h);
  }

  module _ (crypto : Crypto) where
    Step-IsTraced : {v w : World} → Step env crypto v w → IsTraced env v → IsTraced env w
    Step-IsTraced (logs_in w vb sb after) h =
        login-IsTraced w _ _ _ (login-IsLoginFrame env crypto vb sb after w.storage) h
    Step-IsTraced (comes_back w code state good) h = record {
      tokens_traced = h.tokens_traced;
      verifier_traced = h.verifier_traced;
      state_traced = h.state_traced;
      pending_traced = (returned-PendingDrawn w code state good h, h.pending_traced);
    }
    Step-IsTraced (code_answered w code v st before after now reply e) h =
        granted-IsTraced w _ _ (before ++ after) (settle_login-IsGrantFrame env now w.storage reply)
          (All-drop (PendingDrawn w.drawn) _ before after (rw e at h.pending_traced)) h
    Step-IsTraced (asks_refresh w current stored y) h = record {
      tokens_traced = h.tokens_traced;
      verifier_traced = h.verifier_traced;
      state_traced = h.state_traced;
      pending_traced = (tt, h.pending_traced);
    }
    Step-IsTraced (refresh_answered w current before after now reply e) h =
        granted-IsTraced w _ _ (before ++ after)
          (settle_refresh-IsGrantFrame env current now w.storage reply)
          (All-drop (PendingDrawn w.drawn) _ before after (rw e at h.pending_traced)) h
    Step-IsTraced (goes_on w) h =
        granted-IsTraced w [] _ w.pending (IsGrantFrame-consume w.storage) h.pending_traced h
    Step-IsTraced (logs_out w) h =
        granted-IsTraced w [] _ w.pending (IsGrantFrame-logout w.storage) h.pending_traced h
    Step-IsTraced (writes_else w k v other) h =
        granted-IsTraced w [] _ w.pending (IsGrantFrame-else k v w.storage other) h.pending_traced h

    first_world-IsTraced : IsTraced env first_world
    unfolding get_item
    first_world-IsTraced = record {
      tokens_traced = λ raw e. cc;
      verifier_traced = λ v e. cc;
      state_traced = λ st e. cc;
      pending_traced = tt;
    }

    -- However logins, returns from the provider, refreshes, answers, logouts and writes to other keys follow
    -- one another from an empty storage, also while requests wait for their answer: the tokens stored
    -- are the JSON text of those that the endpoint granted to a request of this session; the verifier
    -- and the state stored were drawn by logins of this session; and so were the verifier and the
    -- state of every exchange of a code that is under way.
    pub Reach-IsTraced : {w : World} → Reach env crypto first_world w → IsTraced env w
    Reach-IsTraced here = first_world-IsTraced
    Reach-IsTraced (extended r s) = Step-IsTraced s (Reach-IsTraced r)
