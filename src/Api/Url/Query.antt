-- ===== src/Api/Url/Query.antt =====
-- frontend/lib/api.ts: the query that `buildUrl` makes of its entries.
use go_analyze.Prelude.{
  ℕ, suc, ◌≤◌, String, ◌≡◌, refl, sym, ap, ◌∙◌, inl, inr, false, Option, none, some, List, [], ◌∷◌,
  arith, ◌==◌, ◌++◌, ◌⊎◌, true, is_empty, All, Bool-cases, eq_iff, if◌then◌else◌, Option-cases,
  if_same, key_tests,
}
use go_analyze.Api.Url.{
  drop_key, set_param, query_text, add_query, build_url, QueryValue, text, number, boolean,
  undefined, null,
}

-- The first value of a key.
abbrev pub get_param : String → List (String × String) → Option String
get_param key [] = none
get_param key ((k, v) ∷ ps) = let rest = get_param key ps in if k == key then some v else rest

-- How often a key stands in a query.
abbrev pub count_key : String → List (String × String) → ℕ
count_key key [] = 0
count_key key ((k, v) ∷ ps) = let rest = count_key key ps in if k == key then suc rest else rest

-- What the last entry of a key that is not left out says, or else `d`.
abbrev last_text :
    (ℕ → String) → String → List (String × QueryValue) → Option String → Option String
last_text print key [] d = d
last_text print key ((k, v) ∷ entries) d =
    last_text print key entries
      (if k == key then (elim (query_text print v) [ none ↦ d | some s ↦ some s ]) else d)

get_param-drop_key :
    (key k : String) (ps : List (String × String))
    → (key == k) ≡ false
    → get_param k (drop_key key ps) ≡ get_param k ps
unfolding drop_key
get_param-drop_key key k [] h = refl
get_param-drop_key key k ((j, v) ∷ ps) h = grind (key_tests, get_param-drop_key key k ps h)

get_param-set_param :
    (key k v : String) (ps : List (String × String))
    → get_param k (set_param key v ps) ≡ (if key == k then some v else get_param k ps)
unfolding set_param
get_param-set_param key k v [] = refl
get_param-set_param key k v ((j, w) ∷ ps) =
    grind (key_tests, get_param-set_param key k v ps, get_param-drop_key key k ps)

get_param-add_query :
    (print : ℕ → String) (key : String) (entries : List (String × QueryValue))
    (ps : List (String × String))
    → get_param key (add_query print entries ps) ≡ last_text print key entries (get_param key ps)
unfolding add_query
get_param-add_query print key [] ps = refl
get_param-add_query print key ((k, v) ∷ entries) ps = elim (Option-cases (query_text print v)) [
  | inl out ↦ rw out (
      get_param-add_query print key entries ps
      ∙ ap (last_text print key entries) (sym (if_same (k == key) (get_param key ps))))
  | inr (s, here) ↦ rw here (
      get_param-add_query print key entries (set_param k s ps)
      ∙ ap (last_text print key entries) (get_param-set_param k key s ps))
]

count_key-drop_key :
    (key k : String) (ps : List (String × String))
    → count_key k (drop_key key ps) ≡ (if key == k then 0 else count_key k ps)
unfolding drop_key
count_key-drop_key key k [] = ground arith
count_key-drop_key key k ((j, v) ∷ ps) = grind (key_tests, count_key-drop_key key k ps)

count_key-set_param :
    (key k v : String) (ps : List (String × String))
    → count_key k (set_param key v ps) ≡ (if key == k then 1 else count_key k ps)
unfolding set_param
count_key-set_param key k v [] = refl
count_key-set_param key k v ((j, w) ∷ ps) =
    grind (key_tests, count_key-set_param key k v ps, count_key-drop_key key k ps)

count_key-set_param-le :
    (key k v : String) (ps : List (String × String))
    → count_key k ps ≤ 1
    → count_key k (set_param key v ps) ≤ 1
count_key-set_param-le key k v ps h = ground (arith, count_key-set_param key k v ps)

count_key-add_query :
    (print : ℕ → String) (key : String) (entries : List (String × QueryValue))
    (ps : List (String × String))
    → count_key key ps ≤ 1
    → count_key key (add_query print entries ps) ≤ 1
unfolding add_query
count_key-add_query print key [] ps h = h
count_key-add_query print key ((k, v) ∷ entries) ps h = elim (Option-cases (query_text print v)) [
  | inl out ↦ rw out (count_key-add_query print key entries ps h)
  | inr (s, here) ↦ rw here (
      count_key-add_query print key entries (set_param k s ps)
        (count_key-set_param-le k key s ps h))
]

-- A value that no query has: it is `undefined`, `null` or an empty text.
abbrev pub IsSilent : QueryValue → Type 0
IsSilent (text t) = t ≡ ""
IsSilent (number n) = ⊥
IsSilent (boolean b) = ⊥
IsSilent undefined = Unit {0}
IsSilent null = Unit {0}

-- The text of any other value.
abbrev pub Says : (ℕ → String) → QueryValue → String → Type 0
Says print (text t) s = (s ≡ t) × (is_empty t ≡ false)
Says print (number n) s = s ≡ print n
Says print (boolean true) s = s ≡ "true"
Says print (boolean false) s = s ≡ "false"
Says print undefined s = ⊥
Says print null s = ⊥

-- No entry of the key has a text.
abbrev pub AllSilent : String → List (String × QueryValue) → Type 0
AllSilent key entries = All (λ (e : String × QueryValue). e.0 ≡ key → IsSilent e.1) entries

-- The last entry of the key that has a text has this one.
pub record LastSays (print : ℕ → String) (key s : String) (entries : List (String × QueryValue))
    : Type 0 where
  pub before : List (String × QueryValue)
  pub value : QueryValue
  pub after : List (String × QueryValue)
  pub split : entries ≡ before ++ (key, value) ∷ after
  pub says : Says print value s
  pub last : AllSilent key after

absurd_none_some : {P : Type 0} {s : String} → some s ≡ none → P
absurd_none_some h = cc h

query_text-IsSilent : (print : ℕ → String) (v : QueryValue) → query_text print v ≡ none → IsSilent v
unfolding query_text
query_text-IsSilent print (text t) h = elim (Bool-cases (is_empty t)) [
  | inl e ↦ (eq_iff t "").0 e
  | inr e ↦ absurd_none_some (rw e at h)
]
query_text-IsSilent print (number n) h = ground arith
query_text-IsSilent print (boolean b) h = ground arith
query_text-IsSilent print undefined h = tt
query_text-IsSilent print null h = tt

query_text-Says :
    (print : ℕ → String) (v : QueryValue) (s : String)
    → query_text print v ≡ some s
    → Says print v s
unfolding query_text
query_text-Says print (text t) s h = elim (Bool-cases (is_empty t)) [
  | inl e ↦ absurd_none_some (sym (rw e at h))
  | inr e ↦ let same : some t ≡ some s = rw e at h in (cc same, e)
]
query_text-Says print (number n) s h = ground arith
query_text-Says print (boolean true) s h = ground arith
query_text-Says print (boolean false) s h = ground arith
query_text-Says print undefined s h = ground arith
query_text-Says print null s h = ground arith

LastSays-cons :
    {print : ℕ → String} {key s : String} {entries : List (String × QueryValue)}
    (e : String × QueryValue)
    → LastSays print key s entries
    → LastSays print key s (e ∷ entries)
LastSays-cons e l = record {
  before = e ∷ l.before;
  value = l.value;
  after = l.after;
  split = ap (λ es. e ∷ es) l.split;
  says = l.says;
  last = l.last;
}

-- What the entries of the key add to what stood there.
last_text_cases :
    (print : ℕ → String) (key : String) (entries : List (String × QueryValue)) (d : Option String)
    → (AllSilent key entries × (last_text print key entries d ≡ d))
      ⊎ ((s : String) × LastSays print key s entries × (last_text print key entries d ≡ some s))
last_text_cases print key [] d = inl (tt, refl)
last_text_cases print key ((k, v) ∷ entries) d =
    let d' = if k == key then (elim (query_text print v) [ none ↦ d | some s ↦ some s ]) else d in
    elim (last_text_cases print key entries d') [
      | inr (s, later, e) ↦ inr (s, LastSays-cons (k, v) later, e)
      | inl (silent, e) ↦ elim (Bool-cases (k == key)) [
        | inr other ↦ inl ((λ same. cc ((eq_iff k key).1 same, other), silent), e ∙ rw other refl)
        | inl here ↦ elim (Option-cases (query_text print v)) [
          | inl out ↦ inl ((λ _. query_text-IsSilent print v out, silent), e ∙ rw (here, out) refl)
          | inr (s, found) ↦ inr (
            s,
            record {
              before = [];
              value = v;
              after = entries;
              split = ap (λ j. (j, v) ∷ entries) ((eq_iff k key).0 here);
              says = query_text-Says print v s found;
              last = silent;
            },
            e ∙ rw (here, found) refl,
          )
        ]
      ]
    ]

-- In the query of a URL that the client builds, a key stands at most once. Either every entry of the
-- key is `undefined`, `null` or an empty text, and the key is not there; or its value is that of the
-- last entry of the key which is none of these: the text itself, which is not empty, the number as it is
-- printed, or "true" or "false".
pub build_url-query :
    (resolve : String → String → String) (print : ℕ → String) (base path : String)
    (entries : List (String × QueryValue)) (key : String)
    → let params = (build_url resolve print base path entries).search_params in
      (count_key key params ≤ 1)
      × ((AllSilent key entries × (get_param key params ≡ none))
          ⊎ ((s : String) × LastSays print key s entries × (get_param key params ≡ some s)))
unfolding build_url
build_url-query resolve print base path entries key =
    let all = get_param-add_query print key entries [] in
    (
      count_key-add_query print key entries [] (omega arith),
      elim (last_text_cases print key entries none) [
        | inl (silent, e) ↦ inl (silent, all ∙ e)
        | inr (s, later, e) ↦ inr (s, later, all ∙ e)
      ],
    )
