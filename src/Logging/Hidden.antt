-- ===== src/Logging/Hidden.antt =====
-- What the patterns of app/utils/logging.py do to a secret in a text.
use Prim.Native.Char.{Char}
use Prim.Native.String.{◌++◌ as concat}
use Prim.Native.String.append
use text.Mathlib.TextLemmas.{append_assoc}
use noxis_api_provider.Prelude.{
  suc, ◌+◌, ◌-◌, ◌≤◌, ◌<◌, String, ◌≡◌, refl, sym, ap, subst, ◌∙◌, Bool, true, false, some, List,
  [], ◌∷◌, leb, ltb, arith, Bool-cases, inl, inr,
}
use noxis_api_provider.Logging.{scrub}
use noxis_api_provider.Logging.Patterns.{
  Match, mask, is_alnum, is_token, is_space, one_of, size, first, after, run, starts, bearer,
  match_bearer, match_sk, match_api_key, sub_from, sub,
}

-- Each character passes the test.
abbrev pub AllChars : (Char → Bool) → String → Type 0
AllChars p String.[] = Unit
AllChars p (String.◌∷◌ c s) = (p c ≡ true) × AllChars p s

-- The first character, if there is one, does not.
abbrev pub StartsOut : (Char → Bool) → String → Type 0
StartsOut p String.[] = Unit
StartsOut p (String.◌∷◌ c s) = p c ≡ false

first-append : (s t : String) → first (size s) (concat s t) ≡ s
unfolding first size
first-append String.[] t = refl
first-append (String.◌∷◌ c s) t = rw append.cons (ap (String.◌∷◌ c) (first-append s t))

after-append : (s t : String) → after (size s) (concat s t) ≡ t
unfolding after size
after-append String.[] t = append.nil t
after-append (String.◌∷◌ c s) t = rw append.cons (after-append s t)

run-append :
    (p : Char → Bool) (s t : String) → AllChars p s → StartsOut p t → run p (concat s t) ≡ size s
unfolding run size
run-append p String.[] String.[] a o = refl
run-append p String.[] (String.◌∷◌ c t) a o = rw (append.nil, o, run) refl
run-append p (String.◌∷◌ c s) t a o = rw (append.cons, a.0, run-append p s t a.1 o, run) refl

starts-append :
    (ps : List (Char → Bool)) (s t : String) → starts ps s ≡ true → starts ps (concat s t) ≡ true
unfolding starts
starts-append [] s t h = refl
starts-append (p ∷ ps) String.[] t h = absurd cc
starts-append (p ∷ ps) (String.◌∷◌ c s) t h = elim (Bool-cases (p c)) [
  | inl e ↦ rw (append.cons, e, starts) (starts-append ps s t (ground (arith, e, h)))
  | inr e ↦ absurd (ground (arith, e, h))
]

size-append : (s t : String) → size (concat s t) ≡ size s + size t
unfolding size
size-append String.[] t = rw append.nil (omega arith)
size-append (String.◌∷◌ c s) t = rw (append.cons, size) (omega (arith, size-append s t))

-- What is left of a match is passed over.
sub_from-append :
    (match : String → Match) (s t : String) → sub_from match (size s) (concat s t) ≡ sub match t
unfolding sub_from size sub
sub_from-append match String.[] t = ap (sub_from match 0) (append.nil t)
sub_from-append match (String.◌∷◌ c s) t = rw append.cons (sub_from-append match s t)

-- At a match the first group is kept, the mask put behind it, and the rest goes on.
sub-match :
    (match : String → Match) (found rest group : String)
    → 0 < size found
    → match (concat found rest) ≡ some (group, size found)
    → sub match (concat found rest) ≡ concat group (concat mask (sub match rest))
unfolding size sub
sub-match match String.[] rest group h e = absurd (omega (arith, h))
sub-match match (String.◌∷◌ c s) rest group h e =
    let here : match (String.◌∷◌ c (concat s rest)) ≡ some (group, suc (size s)) =
      rw append.cons at e in
    let less : suc (size s) - 1 ≡ size s = omega arith in
    rw (append.cons c s rest, sub, sub_from, here, less)
      (ap (λ t. concat group (concat mask t)) (sub_from-append match s rest))

token-not_space : (c : Char) → is_token c ≡ true → is_space c ≡ false
token-not_space c h = ground arith

token-StartsOut :
    (token rest : String)
    → AllChars is_token token
    → 0 < size token
    → StartsOut is_space (concat token rest)
unfolding size
token-StartsOut String.[] rest a n = absurd (omega (arith, n))
token-StartsOut (String.◌∷◌ c s) rest a n =
    subst (StartsOut is_space) (sym (append.cons c s rest)) (token-not_space c a.0)

match_sk-key :
    (dash key rest : String)
    → starts (one_of (115 ∷ []) ∷ one_of (107 ∷ []) ∷ one_of (45 ∷ []) ∷ []) dash ≡ true
    → size dash ≡ 3
    → AllChars is_alnum key
    → 10 ≤ size key
    → StartsOut is_alnum rest
    → match_sk (concat dash (concat key rest)) ≡ some (concat dash key, 3 + size key)
unfolding match_sk
match_sk-key dash key rest s three a n o =
    let tail : after 3 (concat dash (concat key rest)) ≡ concat key rest =
      subst (λ m. after m (concat dash (concat key rest)) ≡ concat key rest) three
        (after-append dash (concat key rest)) in
    let found : run is_alnum (concat key rest) ≡ size key = run-append is_alnum key rest a o in
    let enough : leb 10 (size key) ≡ true = ground (arith, n) in
    let whole : size (concat dash key) ≡ 3 + size key =
      omega (arith, size-append dash key, three) in
    let group : first (3 + size key) (concat dash (concat key rest)) ≡ concat dash key =
      subst (λ m. first m (concat dash (concat key rest)) ≡ concat dash key) whole
        (rw (sym (append_assoc dash key rest)) (first-append (concat dash key) rest)) in
    rw (tail, found, enough, starts-append _ dash (concat key rest) s, group) refl

-- The word Bearer, however it is written, some space, and a token, which ends where `rest` starts.
pub record IsBearer (word spaces token rest : String) : Type 0 where
  pub word_is : starts bearer word ≡ true
  pub six : size word ≡ 6
  pub blank : AllChars is_space spaces
  pub space_some : 0 < size spaces
  pub plain : AllChars is_token token
  pub token_some : 0 < size token
  pub ends : StartsOut is_token rest

match_bearer-token :
    (word spaces token rest : String)
    → IsBearer word spaces token rest
    → match_bearer (concat word (concat spaces (concat token rest)))
      ≡ some (concat word spaces, 6 + size spaces + size token)
unfolding match_bearer
match_bearer-token word spaces token rest h =
    let text = concat word (concat spaces (concat token rest)) in
    let whole : size (concat word spaces) ≡ 6 + size spaces =
      omega (arith, size-append word spaces, h.six) in
    let regroup = append_assoc word spaces (concat token rest) in
    let behind_word : after 6 text ≡ concat spaces (concat token rest) =
      subst (λ k. after k text ≡ concat spaces (concat token rest)) h.six
        (after-append word (concat spaces (concat token rest))) in
    let run_spaces : run is_space (concat spaces (concat token rest)) ≡ size spaces =
      run-append is_space spaces (concat token rest) h.blank
        (token-StartsOut token rest h.plain h.token_some) in
    let behind_spaces : after (6 + size spaces) text ≡ concat token rest =
      subst (λ k. after k text ≡ concat token rest) whole
        (rw (sym regroup) (after-append (concat word spaces) (concat token rest))) in
    let run_token : run is_token (concat token rest) ≡ size token =
      run-append is_token token rest h.plain h.ends in
    let group : first (6 + size spaces) text ≡ concat word spaces =
      subst (λ k. first k text ≡ concat word spaces) whole
        (rw (sym regroup) (first-append (concat word spaces) (concat token rest))) in
    let some_space : ltb 0 (size spaces) ≡ true = ground (arith, h.space_some) in
    let some_token : ltb 0 (size token) ≡ true = ground (arith, h.token_some) in
    rw
      (
        behind_word,
        run_spaces,
        behind_spaces,
        run_token,
        some_space,
        some_token,
        starts-append bearer word _ h.word_is,
        group,
      )
      refl

-- A bearer token, however the word is written and whatever space stands before the token, is replaced by
-- the mask, and the text behind it is gone over in its turn.
sub-bearer :
    (word spaces token rest : String)
    → IsBearer word spaces token rest
    → sub match_bearer (concat word (concat spaces (concat token rest)))
      ≡ concat (concat word spaces) (concat mask (sub match_bearer rest))
sub-bearer word spaces token rest h =
    let found = concat (concat word spaces) token in
    let same : concat found rest ≡ concat word (concat spaces (concat token rest)) =
      append_assoc (concat word spaces) token rest ∙ append_assoc word spaces (concat token rest) in
    let whole : size found ≡ 6 + size spaces + size token =
      omega (arith, size-append (concat word spaces) token, size-append word spaces, h.six) in
    ap (sub match_bearer) (sym same)
    ∙ sub-match match_bearer found rest (concat word spaces) (omega (arith, whole))
        (rw (same, whole) (match_bearer-token word spaces token rest h))

-- A key that starts with sk- is not replaced: the whole of it is the first group of its pattern, and stays
-- in the text, with the mask behind it.
pub sub-sk :
    (dash key rest : String)
    → starts (one_of (115 ∷ []) ∷ one_of (107 ∷ []) ∷ one_of (45 ∷ []) ∷ []) dash ≡ true
    → size dash ≡ 3
    → AllChars is_alnum key
    → 10 ≤ size key
    → StartsOut is_alnum rest
    → sub match_sk (concat dash (concat key rest))
      ≡ concat (concat dash key) (concat mask (sub match_sk rest))
sub-sk dash key rest s three a n o =
    let whole : size (concat dash key) ≡ 3 + size key =
      omega (arith, size-append dash key, three) in
    ap (sub match_sk) (sym (append_assoc dash key rest))
    ∙ sub-match match_sk (concat dash key) rest (concat dash key) (omega (arith, whole))
        (rw (append_assoc dash key rest, whole) (match_sk-key dash key rest s three a n o))

-- A bearer token of the pattern's alphabet leaves no trace in the log: for a text that starts with the word
-- Bearer, in capitals or not, and some space, and goes on with one or more letters, digits, `-`, `_`, `.`
-- and `=` and then with the end or another character, what is logged is the same whichever these are. Of a
-- token that has other characters, the part from the first of them on is not covered.
pub scrub-bearer_unseen :
    (word spaces token other rest : String)
    → IsBearer word spaces token rest
    → IsBearer word spaces other rest
    → scrub (concat word (concat spaces (concat token rest)))
      ≡ scrub (concat word (concat spaces (concat other rest)))
unfolding scrub
scrub-bearer_unseen word spaces token other rest h k =
    ap (λ t. sub match_api_key (sub match_sk t))
      (sub-bearer word spaces token rest h ∙ sym (sub-bearer word spaces other rest k))
