-- ===== src/Pages/Download.antt =====
-- frontend/components/documents/DownloadButton.tsx: the button that saves a document's content.
use go_analyze.Prelude.{
  ℕ, suc, ◌+◌, String, ◌≡◌, refl, Bool, true, false, ◌&&◌, Option, none, some, List, [], ◌∷◌, ◌++◌,
  arith, if◌then◌else◌, is_some, truthy_or,
}
use go_analyze.Ui.{message_or, when_text, Item, paragraph, button, Thrown}

pub record DownloadState : Type 0 where
  pub busy : Bool
  pub error_text : Option String

-- What the handler asks of the browser. A URL stands for the blob until it is revoked.
pub data BrowserCall : Type 0 where
  create_url append_anchor remove_anchor revoke_url : BrowserCall
  click_anchor : String → BrowserCall  -- with the name of the file to be saved

-- How `documentsApi.download` ends.
pub data DownloadReply : Type 0 where
  downloaded : DownloadReply
  not_downloaded : Thrown → DownloadReply

abbrev pub initial_download : DownloadState
initial_download = record { busy = false; error_text = none }

-- `handleDownload` up to its await.
unfoldable pub start_download : DownloadState → DownloadState
start_download s = record { busy = true; error_text = none }

-- The rest of it, with `finally`. An exception of `createObjectURL`, as for an answer that is no blob,
-- counts as `not_downloaded`, whose `catch` it is; the other calls of the browser do not throw.
unfoldable pub settle_download :
    String → Option String → DownloadReply → DownloadState → DownloadState × List BrowserCall
settle_download document_id filename downloaded s = (
  record s { busy = false },
  create_url
      ∷ append_anchor
      ∷ click_anchor (truthy_or filename document_id)
      ∷ remove_anchor
      ∷ revoke_url
      ∷ [],
)
settle_download document_id filename (not_downloaded e) s =
    (record { busy = false; error_text = some (message_or "Download failed." e) }, [])

unfoldable pub download_view : DownloadState → List Item
download_view s = button "Download" s.busy ∷ when_text s.error_text (λ m. paragraph m)

-- A click on the button, which does nothing while it is disabled, or the end of a download.
pub data DownloadEvent : Type 0 where
  clicked : DownloadEvent
  ended : DownloadReply → DownloadEvent

module _ (document_id : String) (filename : Option String) where
  -- An end counts only for a download that is under way.
  abbrev pub download_step :
      DownloadEvent → DownloadState × List BrowserCall → DownloadState × List BrowserCall
  download_step clicked (s, calls) = (if s.busy then s else start_download s, calls)
  download_step (ended reply) (s, calls) =
      let (s', more) = settle_download document_id filename reply s in
      if s.busy then (s', calls ++ more) else (s, calls)

  abbrev pub download_run :
      List DownloadEvent → DownloadState × List BrowserCall → DownloadState × List BrowserCall
  download_run [] p = p
  download_run (e ∷ es) p = download_run es (download_step e p)

  -- How many URLs are made and not revoked.
  abbrev pub created : List BrowserCall → ℕ
  created [] = 0
  created (create_url ∷ cs) = suc (created cs)
  created (_ ∷ cs) = created cs

  abbrev pub revoked : List BrowserCall → ℕ
  revoked [] = 0
  revoked (revoke_url ∷ cs) = suc (revoked cs)
  revoked (_ ∷ cs) = revoked cs

  created-append : (xs ys : List BrowserCall) → created (xs ++ ys) ≡ created xs + created ys
  created-append [] ys = omega arith
  created-append (create_url ∷ xs) ys = omega (arith, created-append xs ys)
  created-append (append_anchor ∷ xs) ys = created-append xs ys
  created-append (remove_anchor ∷ xs) ys = created-append xs ys
  created-append (revoke_url ∷ xs) ys = created-append xs ys
  created-append (click_anchor n ∷ xs) ys = created-append xs ys

  revoked-append : (xs ys : List BrowserCall) → revoked (xs ++ ys) ≡ revoked xs + revoked ys
  revoked-append [] ys = omega arith
  revoked-append (revoke_url ∷ xs) ys = omega (arith, revoked-append xs ys)
  revoked-append (append_anchor ∷ xs) ys = revoked-append xs ys
  revoked-append (remove_anchor ∷ xs) ys = revoked-append xs ys
  revoked-append (create_url ∷ xs) ys = revoked-append xs ys
  revoked-append (click_anchor n ∷ xs) ys = revoked-append xs ys

  ruleset url_counts = (arith, created-append, revoked-append)

  -- Every URL is revoked, and the button shows no error while a download is under way.
  pub record IsTidy (p : DownloadState × List BrowserCall) : Type 0 where
    pub all_revoked : created p.1 ≡ revoked p.1
    pub no_error : (p.0.busy && is_some p.0.error_text) ≡ false

  settle-IsTidy :
      (reply : DownloadReply) (s : DownloadState) (calls : List BrowserCall)
      → IsTidy (s, calls)
      → let q = settle_download document_id filename reply s in IsTidy (q.0, calls ++ q.1)
  unfolding settle_download
  settle-IsTidy downloaded s calls h = record {
    all_revoked = omega (url_counts, h.all_revoked);
    no_error = refl;
  }
  settle-IsTidy (not_downloaded e) s calls h = record {
    all_revoked = omega (url_counts, h.all_revoked);
    no_error = refl;
  }

  start-IsTidy :
      (s : DownloadState) (calls : List BrowserCall)
      → IsTidy (s, calls)
      → IsTidy (start_download s, calls)
  unfolding start_download
  start-IsTidy s calls h = record { all_revoked = h.all_revoked; no_error = refl }

  IsTidy-if :
      (b : Bool) (p q : DownloadState × List BrowserCall)
      → IsTidy p
      → IsTidy q
      → IsTidy (if b then p else q)
  IsTidy-if true p q h k = h
  IsTidy-if false p q h k = k

  clicked-IsTidy :
      (b : Bool) (s : DownloadState) (calls : List BrowserCall)
      → IsTidy (s, calls)
      → IsTidy (if b then s else start_download s, calls)
  clicked-IsTidy true s calls h = h
  clicked-IsTidy false s calls h = start-IsTidy s calls h

  download_step-IsTidy :
      (e : DownloadEvent) (p : DownloadState × List BrowserCall)
      → IsTidy p
      → IsTidy (download_step e p)
  download_step-IsTidy clicked (s, calls) h = clicked-IsTidy s.busy s calls h
  download_step-IsTidy (ended reply) (s, calls) h =
      IsTidy-if s.busy _ (s, calls) (settle-IsTidy reply s calls h) h

  -- From a state where this holds, it holds after every order of clicks and ends: each URL made for a
  -- download is revoked again, and no error of an earlier download is shown while one is under way.
  pub download_run-IsTidy :
      (es : List DownloadEvent) (p : DownloadState × List BrowserCall)
      → IsTidy p
      → IsTidy (download_run es p)
  download_run-IsTidy [] p h = h
  download_run-IsTidy (e ∷ es) p h =
      download_run-IsTidy es (download_step e p) (download_step-IsTidy e p h)
