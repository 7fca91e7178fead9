-- ===== src/Json.antt =====
-- JSON values (`unknown`, `Record<string, unknown>`), as the zod schemas of the program read them.
use botchatgptclaude.Prelude.{
  ℕ, String, Bool, Option, none, some, List, [], ◌∷◌, ◌==◌, if◌then◌else◌,
}

mutual
  pub data Json : Type 0 where
    null : Json
    bool : Bool → Json
    num : ℕ → Json
    str : String → Json
    arr : Items → Json
    obj : Fields → Json

  pub data Items : Type 0 where
    nil : Items
    cons : Json → Items → Items

  pub data Fields : Type 0 where
    end : Fields
    field : String → Json → Fields → Fields

-- A member of an object; `none` is `undefined`.
unfoldable pub member : String → Fields → Option Json
member k end = none
member k (field j v fs) = if j == k then some v else member k fs

unfoldable pub items : Items → List Json
items nil = []
items (cons v vs) = v ∷ items vs
