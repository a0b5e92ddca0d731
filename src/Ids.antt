-- ===== src/Ids.antt =====
-- app/utils/ids.py: the ids of requests and answers. What secrets.token_hex draws and how Python prints a
-- number in hexadecimal are arguments.
use text.Mathlib.TextLemmas.{append_cancel_left}
use Prim.Native.String.{◌++◌ as append}
use noxis_api_provider.Prelude.{ℕ, String, ◌≡◌}

unfoldable pub gen_id : (token prefix : String) → String
gen_id token prefix = append prefix (append "-" token)

unfoldable pub gen_request_id : (show_hex : ℕ → String) (token : String) (milliseconds : ℕ) → String
gen_request_id show_hex token milliseconds = append "req_" (append (show_hex milliseconds) token)

unfoldable pub gen_chat_id : (token : String) → String
unfolding gen_id
gen_chat_id token = gen_id token "chatcmpl"

-- Different draws give different ids, under any prefix.
pub gen_id-inj : (prefix s t : String) → gen_id s prefix ≡ gen_id t prefix → s ≡ t
unfolding gen_id
gen_id-inj prefix s t e =
    append_cancel_left "-" s t (append_cancel_left prefix (append "-" s) (append "-" t) e)
