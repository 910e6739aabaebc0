-- ===== src/Redaction/Query.antt =====
-- `redact_query` of binance_th/redaction.py: its regular expression as a scan from left to right,
-- over the characters of an ASCII query.
use binance_th.Prelude.{
  ℕ, ◌+◌, ◌≡◌, ◌≢◌, refl, ap, sym, ◌∙◌, inl, inr, Bool, true, false, not, ◌&&◌, ◌||◌, Option, none,
  some, String, List, [], ◌∷◌, ◌++◌, leb, ◌==◌, if◌then◌else◌, arith, All, Bool-cases,
}
use mathlib.Core.Option
use mathlib.Core.List.{append-nil}
use binance_th.Prelude.Text.{codes, lower, same}
use binance_th.Redaction.{sensitive_keys, among, is_sensitive, redact_headers}

-- `\w` or a dash, which the expression wants not to stand before a key.
abbrev pub is_word : ℕ → Bool
is_word c =
    (leb b'0' c && leb c b'9')
    || (leb b'A' c && leb c b'Z')
    || (leb b'a' c && leb c b'z')
    || c == b'_'
    || c == b'-'

abbrev lower_char : ℕ → ℕ
lower_char c = if leb b'A' c && leb c b'Z' then c + 32 else c

-- The key, in any case, and `=` at the start of a text: the key as it stands there.
unfoldable pub match_one : List ℕ → List ℕ → Option (List ℕ)
match_one k [] = none
match_one [] (c ∷ s) = if c == b'=' then some [] else none
match_one (d ∷ k) (c ∷ s) =
    let rest = match_one k s in if lower_char c == d then Option.map (λ n. c ∷ n) rest else none

-- The alternatives: at most one of them matches, since `=` comes after it.
unfoldable pub match_key : List String → List ℕ → Option (List ℕ)
unfolding match_one
match_key [] s = none
match_key (k ∷ ks) s =
    let rest = match_key ks s in elim (match_one (codes k) s) [ none ↦ rest | some n ↦ some n ]

abbrev pub mask : List ℕ
mask = codes "***REDACTED***"

-- The scan. `hiding` drops the text up to the next `&`; `fresh` says that no word character stands
-- before. A match is written with the mask, and its value is dropped with the rest of its key, which
-- holds no `&`.
unfoldable pub scan : (hiding fresh : Bool) → List ℕ → List ℕ
unfolding match_key
scan hiding fresh [] = []
scan true fresh (c ∷ s) =
    let more = scan true fresh s in
    let next = c ∷ scan false true s in if c == b'&' then next else more
scan false false (c ∷ s) = c ∷ scan false (not (is_word c)) s
scan false true (c ∷ s) = elim (match_key sensitive_keys (c ∷ s)) [
  | none ↦ c ∷ scan false (not (is_word c)) s
  | some n ↦ n ++ b'=' ∷ (mask ++ scan true false s)
]

unfoldable pub redact_query : List ℕ → List ℕ
unfolding scan
redact_query = scan false true

-- `k=v&k2=v2`
abbrev pub render : List (String × String) → List ℕ
render [] = []
render ((k, v) ∷ []) = codes k ++ b'=' ∷ codes v
render ((k, v) ∷ p ∷ ps) = codes k ++ b'=' ∷ (codes v ++ b'&' ∷ render (p ∷ ps))

-- A parameter as it stands in a URL: the key holds word characters and dashes, and the value
-- neither `=` nor `&`.
abbrev pub IsPlain : String × String → Type 0
IsPlain (k, v) =
    All (λ c. is_word c ≡ true) (codes k) × All (λ c. (c ≢ b'=') × (c ≢ b'&')) (codes v)

abbrev IsKey : List ℕ → Type 0
IsKey k = All (λ c. (c ≢ b'=') × (c ≢ b'&')) k

-- At a key that is followed by `=`, the expression for `k` matches where the two are the same.
match_one-key :
    (k n rest : List ℕ)
    → IsKey k
    → All (λ c. is_word c ≡ true) n
    → match_one k (n ++ b'=' ∷ rest) ≡ (if same (lower n) k then some n else none)
unfolding match_one same lower
match_one-key [] [] rest hk hn = refl
match_one-key (d ∷ k) [] rest hk hn = ground arith
match_one-key [] (c ∷ n) rest hk hn = ground arith
match_one-key (d ∷ k) (c ∷ n) rest hk hn = ground (arith, match_one-key k n rest hk.1 hn.1)

-- What may follow a value.
abbrev IsEnd : List ℕ → Type 0
IsEnd [] = Unit
IsEnd (c ∷ s) = c ≡ b'&'

match_one-value :
    (k v rest : List ℕ)
    → IsKey k
    → All (λ c. (c ≢ b'=') × (c ≢ b'&')) v
    → IsEnd rest
    → match_one k (v ++ rest) ≡ none
unfolding match_one
match_one-value k [] [] hk hv hr = refl
match_one-value [] [] (c ∷ rest) hk hv hr = ground arith
match_one-value (d ∷ k) [] (c ∷ rest) hk hv hr = ground arith
match_one-value [] (c ∷ v) rest hk hv hr = ground arith
match_one-value (d ∷ k) (c ∷ v) rest hk hv hr =
    ground (arith, match_one-value k v rest hk.1 hv.1 hr)

abbrev AreKeys : List String → Type 0
AreKeys ks = All (λ k. IsKey (codes k)) ks

sensitive_keys-IsKey : AreKeys sensitive_keys
sensitive_keys-IsKey = omega arith

match_key-key :
    (ks : List String) (key : String) (rest : List ℕ)
    → AreKeys ks
    → All (λ c. is_word c ≡ true) (codes key)
    → match_key ks (codes key ++ b'=' ∷ rest) ≡ (if among key ks then some (codes key) else none)
unfolding match_key among
match_key-key [] key rest hk hn = refl
match_key-key (k ∷ ks) key rest hk hn = elim (Bool-cases (same (lower (codes key)) (codes k))) [
  | inl here ↦ rw (match_key, match_one-key (codes k) (codes key) rest hk.0 hn, here) refl
  | inr other ↦
      rw (match_key, match_one-key (codes k) (codes key) rest hk.0 hn, other)
        (match_key-key ks key rest hk.1 hn)
]

match_key-value :
    (ks : List String) (v rest : List ℕ)
    → AreKeys ks
    → All (λ c. (c ≢ b'=') × (c ≢ b'&')) v
    → IsEnd rest
    → match_key ks (v ++ rest) ≡ none
unfolding match_key
match_key-value [] v rest hk hv hr = refl
match_key-value (k ∷ ks) v rest hk hv hr =
    rw (match_key, match_one-value (codes k) v rest hk.0 hv hr)
      (match_key-value ks v rest hk.1 hv hr)

scan_unmatched :
    (c : ℕ) (s : List ℕ)
    → match_key sensitive_keys (c ∷ s) ≡ none
    → scan false true (c ∷ s) ≡ c ∷ scan false (not (is_word c)) s
unfolding scan
scan_unmatched c s h = rw (scan, h) refl

scan_matched :
    (c : ℕ) (s n : List ℕ)
    → match_key sensitive_keys (c ∷ s) ≡ some n
    → scan false true (c ∷ s) ≡ n ++ b'=' ∷ (mask ++ scan true false s)
unfolding scan
scan_matched c s n h = rw (scan, h) refl

scan_shut : (c : ℕ) (s : List ℕ) → scan false false (c ∷ s) ≡ c ∷ scan false (not (is_word c)) s
unfolding scan
scan_shut c s = refl

scan_hiding :
    (fresh : Bool) (c : ℕ) (s : List ℕ) → c ≡ b'&' → scan true fresh (c ∷ s) ≡ c ∷ scan false true s
unfolding scan
scan_hiding fresh c s h = ground arith

scan_amp : (c : ℕ) (s : List ℕ) → c ≡ b'&' → scan false true (c ∷ s) ≡ c ∷ scan false true s
scan_amp c s h =
    scan_unmatched c s (match_key-value sensitive_keys [] (c ∷ s) sensitive_keys-IsKey tt h)
    ∙ ap (λ b. c ∷ scan false b s) (rw h refl)

-- The scan goes on alike from the end of a value.
scan_end :
    (hiding fresh : Bool) (rest : List ℕ)
    → IsEnd rest
    → scan hiding fresh rest ≡ scan false true rest
scan_end hiding fresh [] hr = unfold scan in refl
scan_end true fresh (c ∷ s) hr = scan_hiding fresh c s hr ∙ sym (scan_amp c s hr)
scan_end false true (c ∷ s) hr = refl
scan_end false false (c ∷ s) hr =
    scan_shut c s ∙ ap (λ b. c ∷ scan false b s) (rw hr refl) ∙ sym (scan_amp c s hr)

scan_hidden :
    (fresh : Bool) (t rest : List ℕ)
    → All (λ c. c ≢ b'&') t
    → scan true fresh (t ++ rest) ≡ scan true fresh rest
unfolding scan
scan_hidden fresh [] rest h = refl
scan_hidden fresh (c ∷ t) rest h = ground (arith, scan_hidden fresh t rest h.1)

-- Within a key nothing matches.
scan_word :
    (n rest : List ℕ)
    → All (λ c. is_word c ≡ true) n
    → scan false false (n ++ b'=' ∷ rest) ≡ n ++ b'=' ∷ scan false true rest
unfolding scan
scan_word [] rest h = refl
scan_word (c ∷ n) rest h = rw h.0 (ap (λ q. c ∷ q) (scan_word n rest h.1))

scan_value :
    (fresh : Bool) (v rest : List ℕ)
    → All (λ c. (c ≢ b'=') × (c ≢ b'&')) v
    → IsEnd rest
    → scan false fresh (v ++ rest) ≡ v ++ scan false true rest
scan_value fresh [] rest hv hr = scan_end false fresh rest hr
scan_value false (c ∷ v) rest hv hr =
    scan_shut c (v ++ rest) ∙ ap (λ q. c ∷ q) (scan_value (not (is_word c)) v rest hv.1 hr)
scan_value true (c ∷ v) rest hv hr =
    let unmatched = match_key-value sensitive_keys (c ∷ v) rest sensitive_keys-IsKey hv hr in
    scan_unmatched c (v ++ rest) unmatched
    ∙ ap (λ q. c ∷ q) (scan_value (not (is_word c)) v rest hv.1 hr)

word_hidden : (n : List ℕ) → All (λ c. is_word c ≡ true) n → All (λ c. c ≢ b'&') n
word_hidden [] h = tt
word_hidden (c ∷ n) h = (λ e. ground (arith, h.0), word_hidden n h.1)

value_hidden : (v : List ℕ) → All (λ c. (c ≢ b'=') × (c ≢ b'&')) v → All (λ c. c ≢ b'&') v
value_hidden [] h = tt
value_hidden (c ∷ v) h = (h.0.1, value_hidden v h.1)

-- From a match on, the scan is silent to the end of the value.
silent :
    (c : ℕ) (n v rest : List ℕ)
    → All (λ c. is_word c ≡ true) n
    → All (λ c. (c ≢ b'=') × (c ≢ b'&')) v
    → IsEnd rest
    → scan true false (n ++ b'=' ∷ (v ++ rest)) ≡ scan false true rest
silent c n v rest hn hv hr =
    scan_hidden false n (b'=' ∷ (v ++ rest)) (word_hidden n hn)
    ∙ scan_hidden false (b'=' ∷ v) rest ((omega arith), value_hidden v hv)
    ∙ scan_end true false rest hr

scan_sensitive :
    (n v rest : List ℕ)
    → match_key sensitive_keys (n ++ b'=' ∷ (v ++ rest)) ≡ some n
    → All (λ c. is_word c ≡ true) n
    → All (λ c. (c ≢ b'=') × (c ≢ b'&')) v
    → IsEnd rest
    → scan false true (n ++ b'=' ∷ (v ++ rest)) ≡ n ++ b'=' ∷ (mask ++ scan false true rest)
scan_sensitive [] v rest h hn hv hr =
    scan_matched b'=' (v ++ rest) [] h
    ∙ ap (λ q. b'=' ∷ (mask ++ q))
        (scan_hidden false v rest (value_hidden v hv) ∙ scan_end true false rest hr)
scan_sensitive (c ∷ n) v rest h hn hv hr =
    scan_matched c (n ++ b'=' ∷ (v ++ rest)) (c ∷ n) h
    ∙ ap (λ q. (c ∷ n) ++ b'=' ∷ (mask ++ q)) (silent c n v rest hn.1 hv hr)

scan_public :
    (n v rest : List ℕ)
    → match_key sensitive_keys (n ++ b'=' ∷ (v ++ rest)) ≡ none
    → All (λ c. is_word c ≡ true) n
    → All (λ c. (c ≢ b'=') × (c ≢ b'&')) v
    → IsEnd rest
    → scan false true (n ++ b'=' ∷ (v ++ rest)) ≡ n ++ b'=' ∷ (v ++ scan false true rest)
scan_public [] v rest h hn hv hr =
    scan_unmatched b'=' (v ++ rest) h ∙ ap (λ q. b'=' ∷ q) (scan_value true v rest hv hr)
scan_public (c ∷ n) v rest h hn hv hr =
    scan_unmatched c (n ++ b'=' ∷ (v ++ rest)) h
    ∙ ap (λ b. c ∷ scan false (not b) (n ++ b'=' ∷ (v ++ rest))) hn.0
    ∙ ap (λ q. c ∷ q) (scan_word n (v ++ rest) hn.1)
    ∙ ap (λ q. (c ∷ n) ++ b'=' ∷ q) (scan_value true v rest hv hr)

-- What the masking of one parameter makes of its value.
abbrev shown : String → String → String
shown k v = if is_sensitive k then "***REDACTED***" else v

scan_param :
    (k v : String) (rest : List ℕ)
    → IsPlain (k, v)
    → IsEnd rest
    → scan false true (codes k ++ b'=' ∷ (codes v ++ rest))
      ≡ codes k ++ b'=' ∷ (codes (shown k v) ++ scan false true rest)
unfolding is_sensitive
scan_param k v rest (hk, hv) hr =
    let at_key = match_key-key sensitive_keys k (codes v ++ rest) sensitive_keys-IsKey hk in
    elim (Bool-cases (among k sensitive_keys)) [
      | inl hides ↦
          rw hides (scan_sensitive (codes k) (codes v) rest (at_key ∙ rw hides refl) hk hv hr)
      | inr shows ↦
          rw shows (scan_public (codes k) (codes v) rest (at_key ∙ rw shows refl) hk hv hr)
    ]

-- On the query text of parameters whose keys have only word characters and dashes, and whose values
-- have neither `=` nor `&`, `redact_query` gives the query text of the parameters that
-- `redact_headers` masks, so that the two agree on what is a secret.
pub redact_query-render :
    (ps : List (String × String))
    → All IsPlain ps
    → redact_query (render ps) ≡ render (redact_headers ps)
unfolding redact_query redact_headers
redact_query-render [] h = unfold scan in refl
redact_query-render ((k, v) ∷ []) h =
    ap (λ q. scan false true (codes k ++ b'=' ∷ q)) (sym (append-nil (codes v)))
    ∙ scan_param k v [] h.0 tt
    ∙ ap (λ q. codes k ++ b'=' ∷ (codes (shown k v) ++ q)) (unfold scan in refl)
    ∙ ap (λ q. codes k ++ b'=' ∷ q) (append-nil (codes (shown k v)))
redact_query-render ((k, v) ∷ p ∷ ps) h =
    scan_param k v (b'&' ∷ render (p ∷ ps)) h.0 refl
    ∙ ap (λ q. codes k ++ b'=' ∷ (codes (shown k v) ++ q))
        (scan_amp b'&' (render (p ∷ ps)) refl
          ∙ ap (λ q. b'&' ∷ q) (redact_query-render (p ∷ ps) h.1))
