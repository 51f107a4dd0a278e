-- ===== src/Cache/Order.antt =====
-- frontend/lib/documentCache.ts: the order of writes to different documents does not matter.
use text.Mathlib.TextEquality.{IsScalar-prop}
use mathlib.Core.Quot
use mathlib.Core.Quot.{Quot}
use go_analyze.Platform.{Storage}
use go_analyze.Prelude.{
  String, ◌≡◌, refl, sym, ap, ◌∙◌, inl, inr, Bool, false, ◌&&◌, ◌||◌, Option, some, List, [], ◌∷◌,
  ◌++◌, arith, ◌==◌, if◌then◌else◌, Bool-cases, coalesce,
}
use go_analyze.Types.{SearchHit}
use go_analyze.Cache.{blank, merge_record, get_cached_document, CachedDocument, CacheEnv}
use go_analyze.Cache.Merge.{merged_hits}
use go_analyze.Cache.Runs.{
  known, apply_writes, taken, AllCacheJson, get_cached_document-known, CacheWrite, recorded,
  searched,
}

abbrev pub is_hit : String → List SearchHit → Bool
is_hit key [] = false
is_hit key (h ∷ hs) = (h.document_id == key) || is_hit key hs

-- Whether a write tells something of a document.
abbrev pub touches : String → CacheWrite → Bool
touches key (recorded r) = r.id == key
touches key (searched hits) = is_hit key hits

-- No document is told of by both.
abbrev pub AreApart : CacheWrite → CacheWrite → Type 0
AreApart a b = (key : String) → (touches key a && touches key b) ≡ false

-- What one write makes of what is known of a document.
abbrev told : String → CacheWrite → Option CachedDocument → Option CachedDocument
told key (recorded r) old =
    if r.id == key then some (merge_record (coalesce old (blank key)) r) else old
told key (searched hits) old = merged_hits key hits old

known-told :
    (key : String) (a : CacheWrite) (ws : List CacheWrite) (old : Option CachedDocument)
    → known key (a ∷ ws) old ≡ known key ws (told key a old)
known-told key (recorded r) ws old = refl
known-told key (searched hits) ws old = refl

merged_hits_missed :
    (key : String) (hits : List SearchHit) (old : Option CachedDocument)
    → is_hit key hits ≡ false
    → merged_hits key hits old ≡ old
merged_hits_missed key [] old h = refl
merged_hits_missed key (hit ∷ hits) old h =
    let here : (hit.document_id == key) ≡ false = ground arith in
    let more : is_hit key hits ≡ false = ground arith in
    rw here (merged_hits_missed key hits old more)

told_apart :
    (key : String) (a : CacheWrite) (old : Option CachedDocument)
    → touches key a ≡ false
    → told key a old ≡ old
told_apart key (recorded r) old h = rw h
told_apart key (searched hits) old h = merged_hits_missed key hits old h

told_swap :
    (key : String) (a b : CacheWrite) (old : Option CachedDocument)
    → AreApart a b
    → told key b (told key a old) ≡ told key a (told key b old)
told_swap key a b old apart = elim (Bool-cases (touches key a)) [
  | inr missed ↦
      ap (told key b) (told_apart key a old missed) ∙ sym (told_apart key a (told key b old) missed)
  | inl hit ↦
      let missed : touches key b ≡ false = ground (arith, apart key) in
      told_apart key b (told key a old) missed ∙ ap (told key a) (sym (told_apart key b old missed))
]

known-append :
    (key : String) (xs ys : List CacheWrite) (old : Option CachedDocument)
    → known key (xs ++ ys) old ≡ known key ys (known key xs old)
known-append key [] ys old = refl
known-append key (x ∷ xs) ys old =
    known-told key x (xs ++ ys) old
    ∙ (known-append key xs ys (told key x old) ∙ ap (known key ys) (sym (known-told key x xs old)))

-- Two neighbours that are apart, exchanged.
pub data Swapped : List CacheWrite → List CacheWrite → Type 0 where
  swap :
      (before rest : List CacheWrite) (a b : CacheWrite)
      → AreApart a b
      → Swapped (before ++ a ∷ b ∷ rest) (before ++ b ∷ a ∷ rest)

known_swap :
    (key : String) (before rest : List CacheWrite) (a b : CacheWrite) (old : Option CachedDocument)
    → AreApart a b
    → known key (before ++ a ∷ b ∷ rest) old ≡ known key (before ++ b ∷ a ∷ rest) old
known_swap key before rest a b old apart =
    let mid = known key before old in
    known-append key before (a ∷ b ∷ rest) old
    ∙ (known-told key a (b ∷ rest) mid
        ∙ (known-told key b rest (told key a mid)
            ∙ (ap (known key rest) (told_swap key a b mid apart)
                ∙ (sym (known-told key a rest (told key b mid))
                    ∙ (sym (known-told key b (a ∷ rest) mid)
                        ∙ sym (known-append key before (b ∷ a ∷ rest) old))))))

known-Swapped :
    (key : String) (old : Option CachedDocument) {vs ws : List CacheWrite}
    → Swapped vs ws
    → known key vs old ≡ known key ws old
known-Swapped key old (swap before rest a b apart) = known_swap key before rest a b old apart

known_set : IsSet (Option CachedDocument)
known_set = hlevel IsScalar-prop

-- A session's writes, up to the order of those that are apart.
abbrev pub History : Type 0
History = Quot Swapped

-- What a history makes of what was known of a document.
abbrev shown_of : String → Option CachedDocument → History → Option CachedDocument
shown_of key old = Quot.lift known_set (λ ws. known key ws old) (λ vs ws h. known-Swapped key old h)

-- Where `JSON.parse` undoes `JSON.stringify` on the caches written: two sessions that start from the
-- same storage, and in which the browser took the same writes up to the order of those that tell of no
-- document in common, find the same of every document.
pub get_cached_document-History :
    (env : CacheEnv) (vs ws : List CacheWrite) (s : Storage)
    → AllCacheJson env vs s
    → AllCacheJson env ws s
    → ◌≡◌ {A = History} (Quot.mk (taken env vs s)) (Quot.mk (taken env ws s))
    → (key : String)
    → get_cached_document env key (some (apply_writes env vs s))
      ≡ get_cached_document env key (some (apply_writes env ws s))
get_cached_document-History env vs ws s json json' same key =
    let old = get_cached_document env key (some s) in
    get_cached_document-known env key vs s json
    ∙ (ap (shown_of key old) same ∙ sym (get_cached_document-known env key ws s json'))
