-- ===== src/Text.antt =====
-- What the program uses of JavaScript's strings: white space, `trim`, `replace(/\s+/g, " ")` and
-- `split(/\s+/)`, over code points.
use Prim.Native.Char.{Char, code}
use Prim.Native.String
use botchatgptclaude.Prelude.{
  ℕ, zero, suc, ◌%◌, ◌/◌, String, ltb, leb, eqb, Bool, true, false, ◌&&◌, ◌||◌, List, [], ◌∷◌,
  if◌then◌else◌, ◌≡◌, refl, Bool-cases, inl, inr, ap,
}

-- The code points that `\s` matches.
abbrev pub is_space : ℕ → Bool
is_space c =
    (leb 9 c && leb c 13)
    || eqb c 32
    || eqb c 160
    || eqb c 5760
    || (leb 8192 c && leb c 8202)
    || eqb c 8232
    || eqb c 8233
    || eqb c 8239
    || eqb c 8287
    || eqb c 12288
    || eqb c 65279

unfoldable pub space : Char → Bool
space c = is_space (code c)

unfoldable pub is_empty : String → Bool
is_empty String.[] = true
is_empty (String.◌∷◌ c s) = false

unfoldable pub trim_start : String → String
trim_start String.[] = ""
trim_start (String.◌∷◌ c s) = let rest = trim_start s in if space c then rest else String.◌∷◌ c s

unfoldable pub trim_end : String → String
trim_end String.[] = ""
trim_end (String.◌∷◌ c s) =
    let rest = trim_end s in if space c && is_empty rest then "" else String.◌∷◌ c rest

unfoldable pub trim : String → String
unfolding trim_start trim_end
trim s = trim_end (trim_start s)

-- A run of white space becomes one blank; the flag says that the run has begun.
unfoldable pub collapse_from : Bool → String → String
collapse_from in_run String.[] = ""
collapse_from true (String.◌∷◌ c s) =
    if space c then collapse_from true s else String.◌∷◌ c (collapse_from false s)
collapse_from false (String.◌∷◌ c s) =
    if space c then String.◌∷◌ " " (collapse_from true s) else String.◌∷◌ c (collapse_from false s)

-- `cur` is the part that has been read; the flag says that a separator's run has begun.
unfoldable pub split_from : Bool → String → String → List String
split_from in_run cur String.[] = cur ∷ []
split_from true cur (String.◌∷◌ c s) =
    if space c
    then split_from true cur s
    else split_from false (String.◌++◌ cur (String.◌∷◌ c "")) s
split_from false cur (String.◌∷◌ c s) =
    if space c
    then cur ∷ split_from true "" s
    else split_from false (String.◌++◌ cur (String.◌∷◌ c "")) s

blank-space : space " " ≡ true
unfolding space
blank-space = refl

-- Collapsing the white space of a text does not change the words that it splits into.
pub split_from-collapse_from :
    (b : Bool) (cur s : String) → split_from b cur (collapse_from b s) ≡ split_from b cur s
unfolding split_from collapse_from
split_from-collapse_from true cur String.[] = refl
split_from-collapse_from false cur String.[] = refl
split_from-collapse_from true cur (String.◌∷◌ c s) = elim (Bool-cases (space c)) [
  | inl e ↦ rw (e, split_from-collapse_from true cur s)
  | inr e ↦ rw e (simp e (split_from-collapse_from false _ s))
]
split_from-collapse_from false cur (String.◌∷◌ c s) = elim (Bool-cases (space c)) [
  | inl e ↦ rw e (rw blank-space (ap (λ r. cur ∷ r) (split_from-collapse_from true "" s)))
  | inr e ↦ rw e (simp e (split_from-collapse_from false _ s))
]

-- The decimal digits of a number, as a template literal prints it.
show_from : ℕ → ℕ → String → String
show_from zero n rest = rest
show_from (suc f) n rest =
    let shown = digit (n % 10) rest in
    let longer = show_from f (n / 10) shown in if ltb n 10 then shown else longer
  where
    digit : ℕ → String → String
    digit d rest =
        if eqb d 0
        then String.◌++◌ "0" rest
        else if eqb d 1
        then String.◌++◌ "1" rest
        else if eqb d 2
        then String.◌++◌ "2" rest
        else if eqb d 3
        then String.◌++◌ "3" rest
        else if eqb d 4
        then String.◌++◌ "4" rest
        else if eqb d 5
        then String.◌++◌ "5" rest
        else if eqb d 6
        then String.◌++◌ "6" rest
        else if eqb d 7
        then String.◌++◌ "7" rest
        else if eqb d 8
        then String.◌++◌ "8" rest
        else String.◌++◌ "9" rest

unfoldable pub show : ℕ → String
unfolding show_from
show n = show_from (suc n) n ""

-- `s.slice(0, n)`
unfoldable pub slice : ℕ → String → String
slice zero s = ""
slice (suc n) String.[] = ""
slice (suc n) (String.◌∷◌ c s) = String.◌∷◌ c (slice n s)

-- `parts.join("\n")`
unfoldable pub join_lines : List String → String
join_lines [] = ""
join_lines (s ∷ []) = s
join_lines (s ∷ ss) = String.◌++◌ s (String.◌++◌ "\n" (join_lines ss))

-- `s.startsWith(p)`
unfoldable pub starts_with : String → String → Bool
starts_with String.[] s = true
starts_with (String.◌∷◌ a p) String.[] = false
starts_with (String.◌∷◌ a p) (String.◌∷◌ c s) = eqb (code a) (code c) && starts_with p s

-- `s.includes(p)`
unfoldable pub contains : String → String → Bool
contains p String.[] = is_empty p
contains p (String.◌∷◌ c s) = starts_with p (String.◌∷◌ c s) || contains p s

-- `s.split("/")`, with what stands before the first slash in `cur`
unfoldable pub segments_from : String → String → List String
segments_from cur String.[] = cur ∷ []
segments_from cur (String.◌∷◌ c s) =
    let rest = segments_from "" s in
    let longer = segments_from (String.◌++◌ cur (String.◌∷◌ c "")) s in
    if eqb (code c) 47 then cur ∷ rest else longer

abbrev pub segments : String → List String
segments s = segments_from "" s

-- `s.replace(/\\/g, "/")`
unfoldable pub to_posix : String → String
to_posix String.[] = ""
to_posix (String.◌∷◌ c s) = String.◌∷◌ (if eqb (code c) 92 then "/" else c) (to_posix s)
