-- ===== src/Hooks.antt =====
-- frontend/hooks: the state of an asynchronous request. Each call of a hook's function sets the state
-- once at its start and once when its request has ended; calls may overlap, so a history is a list of
-- starts and ends in any order.
pub mod History
pub mod Rag
use go_analyze.Prelude.{Bool, true, false, Option, none, some}
use go_analyze.Platform.{Storage}
use go_analyze.Types.{SearchResponse}
use go_analyze.Cache.{cache_search_hits, CacheEnv}

pub data AsyncStatus : Type 0 where
  idle loading success error : AsyncStatus

abbrev pub is_loading : AsyncStatus → Bool
is_loading loading = true
is_loading _ = false

abbrev pub is_error : AsyncStatus → Bool
is_error error = true
is_error _ = false

pub record AsyncState (A E : Type 0) : Type 0 where
  pub status : AsyncStatus
  pub value : Option A
  pub failure : Option E

-- A request ended: with a value, or with the exception of the `catch`.
pub data Ended (A E : Type 0) : Type 0 where
  resolved : A → Ended A E
  thrown : E → Ended A E

module _ {A E : Type 0} where
  abbrev pub initial_async : AsyncState A E
  initial_async = record { status = idle; value = none; failure = none }

  -- `setStatus("loading"); setError(null)`.
  unfoldable pub start : AsyncState A E → AsyncState A E
  start s = record s { status = loading; failure = none }

  -- The rest of `try` and `catch`.
  unfoldable pub settle : Ended A E → AsyncState A E → AsyncState A E
  settle (resolved a) s = record s { value = some a; status = success }
  settle (thrown e) s = record s { failure = some e; status = error }

-- `useSearch`: a result is put into the document cache first.
unfoldable pub settle_search :
    {E : Type 0}
    → CacheEnv
    → Ended SearchResponse E
    → AsyncState SearchResponse E × Option Storage
    → AsyncState SearchResponse E × Option Storage
settle_search env (resolved r) (s, w) = (settle (resolved r) s, cache_search_hits env r.results w)
settle_search env (thrown e) (s, w) = (settle (thrown e) s, w)

-- `useDocumentsList`: its imports name the cache, its body does not.
unfoldable pub settle_documents_list :
    {E : Type 0}
    → Ended SearchResponse E
    → AsyncState SearchResponse E × Option Storage
    → AsyncState SearchResponse E × Option Storage
settle_documents_list ended (s, w) = (settle ended s, w)

-- `useIngestDocument` and `useProcessDocument`: the caller also gets the value, or the exception is
-- thrown on to it.
unfoldable pub settle_and_pass :
    {A E : Type 0} → Ended A E → AsyncState A E → AsyncState A E × Ended A E
settle_and_pass ended s = (settle ended s, ended)
