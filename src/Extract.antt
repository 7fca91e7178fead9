-- ===== src/Extract.antt =====
-- `extractJsonObject` of lib/ai-orchestrator/schema.ts: the first balanced object of a model's text.
-- `fenced` stands for the pattern that finds a fenced block and gives its inside.
pub mod Balanced
use Prim.Native.Char.{Char, code}
use Prim.Native.String
use botchatgptclaude.Prelude.{
  ℕ, zero, suc, eqb, String, Bool, true, false, Option, none, some, if◌then◌else◌, Result, ok, err,
}
use botchatgptclaude.Text.{trim}

abbrev pub brace : ℕ
brace = 123

abbrev pub end_brace : ℕ
end_brace = 125

abbrev pub quote : ℕ
quote = 34

abbrev pub backslash : ℕ
backslash = 92

-- Where the scan stands: outside of a string, in one, or in one after a backslash.
pub data Place : Type 0 where
  outside inside escaped : Place

abbrev push : Char → Option String → Option String
push c none = none
push c (some rest) = some (String.◌∷◌ c rest)

-- The scan with `depth` open braces: the text up to the brace that closes the first one, or `none`.
unfoldable pub scan : Place → ℕ → String → Option String
scan place depth String.[] = none
scan escaped depth (String.◌∷◌ c s) = push c (scan inside depth s)
scan inside depth (String.◌∷◌ c s) =
    let after_backslash = scan escaped depth s in
    let after_quote = scan outside depth s in
    let going_on = scan inside depth s in
    push c (
      if eqb (code c) backslash
      then after_backslash
      else if eqb (code c) quote
      then after_quote
      else going_on)
scan outside zero (String.◌∷◌ c s) =
    let after_quote = scan inside 0 s in
    let deeper = scan outside 1 s in
    let going_on = scan outside 0 s in
    push c
      (if eqb (code c) quote then after_quote else if eqb (code c) brace then deeper else going_on)
scan outside (suc depth) (String.◌∷◌ c s) =
    let after_quote = scan inside (suc depth) s in
    let deeper = scan outside (suc (suc depth)) s in
    let shallower = scan outside depth s in
    let going_on = scan outside (suc depth) s in
    if eqb (code c) quote
    then push c after_quote
    else if eqb (code c) brace
    then push c deeper
    else if eqb (code c) end_brace
    then (if eqb depth 0 then some (String.◌∷◌ c "") else push c shallower)
    else push c going_on

-- `candidate.slice(candidate.indexOf("{"))`
unfoldable pub from_brace : String → Option String
from_brace String.[] = none
from_brace (String.◌∷◌ c s) =
    let later = from_brace s in if eqb (code c) brace then some (String.◌∷◌ c s) else later

abbrev scanned : Option String → Result String
scanned none = err "Unbalanced JSON object in model output"
scanned (some json) = ok json

abbrev pub first_object : Option String → Result String
first_object none = err "No JSON object found in model output"
first_object (some s) = scanned (scan outside 0 s)

abbrev candidate : String → Option String → String
candidate trimmed none = trimmed
candidate trimmed (some body) = trim body

unfoldable pub extract_json_object : (String → Option String) → String → Result String
extract_json_object fenced text =
    first_object (from_brace (candidate (trim text) (fenced (trim text))))
