-- ===== src/Extract/Balanced.antt =====
-- Balanced texts, and what the scan finds of them.
use Prim.Native.Char.{Char, code}
use mathlib.Core.Option
use botchatgptclaude.Prelude.{
  ℕ, suc, eqb, String, ◌≡◌, refl, ap, ◌∙◌, false, Option, none, some, arith, ok,
}
use botchatgptclaude.Text.{trim}
use botchatgptclaude.Extract.{
  brace, end_brace, quote, backslash, outside, inside, push, scan, from_brace, extract_json_object,
}

-- The inside of a string literal: characters, and escaped ones.
pub data Quoted : Type 0 where
  closed : Quoted
  letter :
      (c : Char) → eqb (code c) quote ≡ false → eqb (code c) backslash ≡ false → Quoted → Quoted
  escape : Char → Quoted → Quoted

-- The inside of an object: characters, string literals with any braces in them, and objects.
pub data Body : Type 0 where
  done : Body
  plain :
      (c : Char)
      → eqb (code c) quote ≡ false
      → eqb (code c) brace ≡ false
      → eqb (code c) end_brace ≡ false
      → Body
      → Body
  text : Quoted → Body → Body
  group : Body → Body → Body

-- A text before another one.
unfoldable pub print_quoted : Quoted → String → String
print_quoted closed rest = String.◌∷◌ "\"" rest
print_quoted (letter c _ _ q) rest = String.◌∷◌ c (print_quoted q rest)
print_quoted (escape c q) rest = String.◌∷◌ "\\" (String.◌∷◌ c (print_quoted q rest))

unfoldable pub print : Body → String → String
print done rest = rest
print (plain c _ _ _ b) rest = String.◌∷◌ c (print b rest)
print (text q b) rest = String.◌∷◌ "\"" (print_quoted q (print b rest))
print (group a b) rest = String.◌∷◌ "{" (print a (String.◌∷◌ "}" (print b rest)))

-- Prose before the object, without a brace.
unfoldable pub NoBrace : String → Type 0
NoBrace String.[] = Unit
NoBrace (String.◌∷◌ c s) = (eqb (code c) brace ≡ false) × NoBrace s

unfoldable pub before : String → String → String
before String.[] rest = rest
before (String.◌∷◌ c s) rest = String.◌∷◌ c (before s rest)

map-map :
    (f g : String → String) (o : Option String)
    → Option.map f (Option.map g o) ≡ Option.map (λ s. f (g s)) o
map-map f g none = refl
map-map f g (some s) = refl

push-map : (c : Char) (o : Option String) → push c o ≡ Option.map (λ s. String.◌∷◌ c s) o
push-map c none = refl
push-map c (some s) = refl

push_on :
    (c : Char) (f : String → String) (o : Option String)
    → push c (Option.map f o) ≡ Option.map (λ s. String.◌∷◌ c (f s)) o
push_on c f none = refl
push_on c f (some s) = refl

scan-print_quoted :
    (q : Quoted) (d : ℕ) (rest : String)
    → scan inside d (print_quoted q rest) ≡ Option.map (print_quoted q) (scan outside d rest)
unfolding scan print_quoted
scan-print_quoted closed d rest = push-map "\"" (scan outside d rest)
scan-print_quoted (letter c unquoted unescaped q) d rest =
    rw (unescaped, unquoted, scan-print_quoted q d rest)
      (push_on c (print_quoted q) (scan outside d rest))
scan-print_quoted (escape c q) d rest = rw (scan-print_quoted q d rest) (
    ap (push "\\") (push_on c (print_quoted q) (scan outside d rest))
    ∙ push_on "\\" (λ s. String.◌∷◌ c (print_quoted q s)) (scan outside d rest))

id_map : (o : Option String) → o ≡ Option.map (λ s. s) o
id_map none = refl
id_map (some s) = refl

scan-print :
    (b : Body) (d : ℕ) (rest : String)
    → scan outside (suc d) (print b rest) ≡ Option.map (print b) (scan outside (suc d) rest)
unfolding scan print
scan-print done d rest = id_map (scan outside (suc d) rest)
scan-print (plain c unquoted unopened unclosed b) d rest =
    rw (unquoted, unopened, unclosed, scan-print b d rest)
      (push_on c (print b) (scan outside (suc d) rest))
scan-print (text q b) d rest =
    rw (scan-print_quoted q (suc d) (print b rest), scan-print b d rest)
      (ap (push "\"") (map-map (print_quoted q) (print b) (scan outside (suc d) rest))
        ∙ push_on "\"" (λ s. print_quoted q (print b s)) (scan outside (suc d) rest))
scan-print (group a b) d rest =
    let x = scan outside (suc d) rest in
    let positive : eqb (suc d) 0 ≡ false = ground arith in
    rw (scan-print a (suc d) (String.◌∷◌ "}" (print b rest)), scan-print b d rest, positive)
      (ap (λ o. push "{" (Option.map (print a) o)) (push_on "}" (print b) x)
        ∙ ap (push "{") (map-map (print a) (λ s. String.◌∷◌ "}" (print b s)) x)
        ∙ push_on "{" (λ s. print a (String.◌∷◌ "}" (print b s))) x)

from_brace-before :
    (prose rest : String)
    → NoBrace prose
    → from_brace (before prose (String.◌∷◌ "{" rest)) ≡ some (String.◌∷◌ "{" rest)
unfolding from_brace before NoBrace
from_brace-before String.[] rest h = refl
from_brace-before (String.◌∷◌ c prose) rest h = rw h.0 (from_brace-before prose rest h.1)

-- An object, printed between prose without a brace and any other text, is what is extracted, when
-- the model's text has no fenced block.
pub extract_json_object-print :
    (fenced : String → Option String) (b : Body) (answer prose tail : String)
    → NoBrace prose
    → trim answer ≡ before prose (print (group b done) tail)
    → fenced (trim answer) ≡ none
    → extract_json_object fenced answer ≡ ok (print (group b done) "")
unfolding extract_json_object print scan
extract_json_object-print fenced b answer prose tail h printed unfenced =
    rw
      (
        unfenced,
        printed,
        from_brace-before prose (print b (String.◌∷◌ "}" tail)) h,
        scan-print b 0 (String.◌∷◌ "}" tail),
      )
      refl
