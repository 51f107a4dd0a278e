-- ===== src/Hooks/History.antt =====
-- frontend/hooks: what the state says after any history of overlapping calls.
use go_analyze.Prelude.{◌≡◌, refl, true, Option, none, some, List, [], ◌∷◌, arith, is_some}
use go_analyze.Platform.{Storage}
use go_analyze.Types.{SearchResponse}
use go_analyze.Cache.{cache_search_hits, CacheEnv}
use go_analyze.Hooks.{
  initial_async, start, settle, settle_search, settle_documents_list, loading, success, error,
  AsyncState, Ended, resolved, thrown,
}

pub data Event (A E : Type 0) : Type 0 where
  started : Event A E
  ended : Ended A E → Event A E

module _ {A E : Type 0} where
  abbrev pub async_step : Event A E → AsyncState A E → AsyncState A E
  async_step started s = start s
  async_step (ended r) s = settle r s

  abbrev pub async_run : List (Event A E) → AsyncState A E → AsyncState A E
  async_run [] s = s
  async_run (e ∷ es) s = async_run es (async_step e s)

  -- The value that the last end with a value brought, or else `old`.
  abbrev pub last_value : List (Event A E) → Option A → Option A
  last_value [] old = old
  last_value (started ∷ es) old = last_value es old
  last_value (ended (resolved a) ∷ es) old = last_value es (some a)
  last_value (ended (thrown e) ∷ es) old = last_value es old

  -- What a page relies on.
  pub record IsShowable (s : AsyncState A E) : Type 0 where
    pub success_has_value : s.status ≡ success → is_some s.value ≡ true
    pub error_has_failure : s.status ≡ error → is_some s.failure ≡ true
    pub loading_clears : s.status ≡ loading → s.failure ≡ none

  pub async_step-IsShowable :
      (e : Event A E) (s : AsyncState A E) → IsShowable s → IsShowable (async_step e s)
  unfolding start settle
  async_step-IsShowable started s h = ground arith
  async_step-IsShowable (ended (resolved a)) s h = ground arith
  async_step-IsShowable (ended (thrown e)) s h = ground arith

  async_run-value :
      (es : List (Event A E)) (s : AsyncState A E) → (async_run es s).value ≡ last_value es s.value
  unfolding start settle
  async_run-value [] s = refl
  async_run-value (started ∷ es) s = async_run-value es (start s)
  async_run-value (ended (resolved a) ∷ es) s = async_run-value es (settle (resolved a) s)
  async_run-value (ended (thrown e) ∷ es) s = async_run-value es (settle (thrown e) s)

  async_run-IsShowable :
      (es : List (Event A E)) (s : AsyncState A E) → IsShowable s → IsShowable (async_run es s)
  async_run-IsShowable [] s h = h
  async_run-IsShowable (e ∷ es) s h =
      async_run-IsShowable es (async_step e s) (async_step-IsShowable e s h)

  pub initial-IsShowable : IsShowable initial_async
  initial-IsShowable = ground arith

  -- From the first render on, whatever the order in which overlapping requests start and end: a
  -- success has a value to show, an error has its exception, and while a request that was the last to
  -- act is loading no error is there; the value is that of the request that ended last with one.
  async_run_shown :
      (es : List (Event A E))
      → IsShowable (async_run es initial_async)
        × ((async_run es initial_async).value ≡ last_value es none)
  async_run_shown es =
      (async_run-IsShowable es initial_async initial-IsShowable, async_run-value es initial_async)

-- A search that is answered after a later one replaces its result: the hooks do not tell which
-- request an answer belongs to.
pub stale_answer_shown :
    {E : Type 0} (env : CacheEnv) (first second : SearchResponse) (s : AsyncState SearchResponse E)
    (w : Option Storage)
    → (settle_search env
        (resolved first)
        (settle_search env (resolved second) (start (start s), w))).0
      ≡ record { status = success; value = some first; failure = none }
unfolding settle_search settle start
stale_answer_shown env first second s w = refl

injected :
    {E : Type 0} (a b : SearchResponse)
    → ◌≡◌ {A = Ended SearchResponse E} (resolved a) (resolved b)
    → a ≡ b
injected a b e = cc

-- The two hooks that search documents show the same, but only `useSearch` remembers the hits: the
-- list of documents leaves the cache as it was.
pub settle_search-documents_list :
    {E : Type 0} (env : CacheEnv) (r : Ended SearchResponse E) (s : AsyncState SearchResponse E)
    (w : Option Storage)
    → ((settle_search env r (s, w)).0 ≡ (settle_documents_list r (s, w)).0)
      × ((settle_documents_list r (s, w)).1 ≡ w)
      × ((a : SearchResponse)
          → r ≡ resolved a
          → (settle_search env r (s, w)).1 ≡ cache_search_hits env a.results w)
unfolding settle_search settle_documents_list
settle_search-documents_list env (resolved a) s w = (refl, refl, λ b e. rw (injected a b e))
settle_search-documents_list env (thrown x) s w = (refl, refl, λ b e. cc)
