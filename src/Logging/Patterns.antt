-- ===== src/Logging/Patterns.antt =====
-- The three patterns of app/utils/logging.py, and `sub` of Python's re with the replacement that redact
-- gives: the first group, and then the mask.
use Prim.Native.Char.{Char, code}
use Prim.Native.String.{◌++◌ as concat}
use noxis_api_provider.Prelude.{
  ℕ, zero, suc, ◌+◌, ◌-◌, String, Bool, true, false, ◌&&◌, ◌||◌, Option, none, some, List, [], ◌∷◌,
  leb, ltb, ◌==◌, any, if◌then◌else◌,
}

abbrev pub mask : String
mask = "***REDACTED***"

abbrev between : ℕ → ℕ → ℕ → Bool
between a b n = leb a n && leb n b

-- [A-Za-z0-9]
abbrev pub is_alnum : Char → Bool
is_alnum c = let n = code c in between 48 57 n || between 65 90 n || between 97 122 n

-- [A-Za-z0-9\-_\.=] where the case is ignored: as re's documentation says, the ranges of letters then match
-- four letters beyond ASCII, too.
abbrev pub is_token : Char → Bool
is_token c =
    let n = code c in
    is_alnum c || any (λ m. m == n) (45 ∷ 95 ∷ 46 ∷ 61 ∷ 304 ∷ 305 ∷ 383 ∷ 8490 ∷ [])

-- \s, on texts
abbrev pub is_space : Char → Bool
is_space c =
    let n = code c in
    between 9 13 n
    || between 28 32 n
    || between 8192 8202 n
    || any (λ m. m == n) (133 ∷ 160 ∷ 5760 ∷ 8232 ∷ 8233 ∷ 8239 ∷ 8287 ∷ 12288 ∷ [])

-- One of these characters.
abbrev pub one_of : List ℕ → Char → Bool
one_of ns c = any (λ m. m == code c) ns

unfoldable pub size : String → ℕ
size String.[] = 0
size (String.◌∷◌ c s) = suc (size s)

unfoldable pub first : ℕ → String → String
first zero s = ""
first (suc n) String.[] = ""
first (suc n) (String.◌∷◌ c s) = String.◌∷◌ c (first n s)

unfoldable pub after : ℕ → String → String
after zero s = s
after (suc n) String.[] = ""
after (suc n) (String.◌∷◌ c s) = after n s

-- The length of the longest run of such characters at the start.
unfoldable pub run : (Char → Bool) → String → ℕ
run p String.[] = 0
run p (String.◌∷◌ c s) = let rest = run p s in if p c then suc rest else 0

-- 1 where the text starts with such a character.
unfoldable pub optional : (Char → Bool) → String → ℕ
optional p String.[] = 0
optional p (String.◌∷◌ c s) = if p c then 1 else 0

-- The text starts with characters that pass these tests in turn.
unfoldable pub starts : List (Char → Bool) → String → Bool
starts [] s = true
starts (p ∷ ps) String.[] = false
starts (p ∷ ps) (String.◌∷◌ c s) = p c && starts ps s

-- A match at the start of a text: the first group, and the length of the match.
abbrev pub Match : Type 0
Match = Option (String × ℕ)

abbrev pub bearer : List (Char → Bool)
bearer =
    one_of (66 ∷ 98 ∷ [])
    ∷ one_of (69 ∷ 101 ∷ [])
    ∷ one_of (65 ∷ 97 ∷ [])
    ∷ one_of (82 ∷ 114 ∷ [])
    ∷ one_of (69 ∷ 101 ∷ [])
    ∷ one_of (82 ∷ 114 ∷ [])
    ∷ []

-- (Bearer\s+)[A-Za-z0-9\-_\.=]+, ignoring case
unfoldable pub match_bearer : String → Match
unfolding first after run starts
match_bearer s =
    let spaces = run is_space (after 6 s) in
    let token = run is_token (after (6 + spaces) s) in
    if starts bearer s && ltb 0 spaces && ltb 0 token
    then some (first (6 + spaces) s, 6 + spaces + token)
    else none

-- (sk-[A-Za-z0-9]{10,})
unfoldable pub match_sk : String → Match
unfolding first after run starts
match_sk s =
    let key = run is_alnum (after 3 s) in
    if starts (one_of (115 ∷ []) ∷ one_of (107 ∷ []) ∷ one_of (45 ∷ []) ∷ []) s && leb 10 key
    then some (first (3 + key) s, 3 + key)
    else none

abbrev pub api : List (Char → Bool)
api = one_of (65 ∷ 97 ∷ []) ∷ one_of (80 ∷ 112 ∷ []) ∷ one_of (73 ∷ 105 ∷ 304 ∷ 305 ∷ []) ∷ []

abbrev pub key_word : List (Char → Bool)
key_word = one_of (75 ∷ 107 ∷ 8490 ∷ []) ∷ one_of (69 ∷ 101 ∷ []) ∷ one_of (89 ∷ 121 ∷ []) ∷ []

-- (api[_-]?key\"?\s*[:=]\s*\"?)[A-Za-z0-9\-_\.=]{8,}, ignoring case. What may be left out is never what
-- follows it, so that the longest match of each part is the only one.
unfoldable pub match_api_key : String → Match
unfolding first after run starts optional
match_api_key s =
    let word = 3 + optional (one_of (95 ∷ 45 ∷ [])) (after 3 s) in
    let quoted = word + 3 + optional (one_of (34 ∷ [])) (after (word + 3) s) in
    let sign = quoted + run is_space (after quoted s) in
    let value = sign + 1 + run is_space (after (sign + 1) s) in
    let group = value + optional (one_of (34 ∷ [])) (after value s) in
    let token = run is_token (after group s) in
    if starts api s
      && starts key_word (after word s)
      && starts (one_of (58 ∷ 61 ∷ []) ∷ []) (after sign s)
      && leb 8 token
    then some (first group s, group + token)
    else none

-- `sub`: from left to right, and on after the end of a match. `left` characters are still of the last match.
unfoldable pub sub_from : (String → Match) → (left : ℕ) → String → String
sub_from match left String.[] = ""
sub_from match (suc left) (String.◌∷◌ c s) = sub_from match left s
sub_from match zero (String.◌∷◌ c s) = elim (match (String.◌∷◌ c s)) [
  | none ↦ String.◌∷◌ c (sub_from match 0 s)
  | some (group, n) ↦ concat group (concat mask (sub_from match (n - 1) s))
]

unfoldable pub sub : (String → Match) → String → String
unfolding sub_from
sub match s = sub_from match 0 s
