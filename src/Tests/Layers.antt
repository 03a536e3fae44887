-- ===== src/Tests/Layers.antt =====
-- A chain of two `metadata.yaml` mappings.
use legal_system.Prelude.{Option, some, List, true, [], ◌∷◌, ◌≡◌, refl, string_dec}
use legal_system.Prelude.Dict.{Dict}
use legal_system.Data.{Value, one, items, mapping, null, bool, text, is_truthy}
use legal_system.Inheritance.{
  Field, metadata, locked_conflict, value, union, is_known, resolve_metadata,
}
use legal_system.Inheritance.Resolved.{IsEnding, resolve_metadata-IsEnding}

abbrev root : Dict Value
root =
    ("author", one (text "A"))
    ∷ ("date", one (text "2020"))
    ∷ ("skip", one (bool true))
    ∷ ("parties", items (text "p" ∷ text "q" ∷ []) "['p', 'q']")
    ∷ ("summary", one (text "s"))
    ∷ []

abbrev leaf : Dict Value
leaf =
    ("date", one (text "2021"))
    ∷ ("skip", one null)
    ∷ ("parties", items (text "q" ∷ text "r" ∷ []) "['q', 'r']")
    ∷ ("unknown", one null)
    ∷ []

abbrev chain : List (Dict Value)
chain = root ∷ leaf ∷ []

-- A schema that takes all fields as they are.
abbrev schema : Dict Field → Option (Dict Field)
schema d = some d

test_resolved :
    resolve_metadata schema chain
    ≡ metadata (
        ("author", value (one (text "A")))
        ∷ ("date", value (one (text "2021")))
        ∷ ("skip", value (one (bool true)))
        ∷ ("parties", union (text "p" ∷ text "q" ∷ text "r" ∷ []))
        ∷ [])
unfolding resolve_metadata is_known string_dec is_truthy
test_resolved = refl

test_conflict :
    resolve_metadata schema (root ∷ (("author", one (text "B")) ∷ []) ∷ [])
    ≡ locked_conflict "author"
unfolding resolve_metadata is_known string_dec is_truthy
test_conflict = refl

-- A null in the leaf erases a locked value.
test_null :
    resolve_metadata schema ((("author", one (text "A")) ∷ []) ∷ (("author", one null) ∷ []) ∷ [])
    ≡ metadata (("author", value (one null)) ∷ [])
unfolding resolve_metadata is_known string_dec is_truthy
test_null = refl

-- The keys of a mapping count as items.
test_mapping :
    resolve_metadata schema ((("parties", mapping (text "p" ∷ []) "{'p': 1}") ∷ []) ∷ [])
    ≡ metadata (("parties", union (text "p" ∷ [])) ∷ [])
unfolding resolve_metadata is_known string_dec is_truthy
test_mapping = refl

resolve_metadata-IsEnding_example : IsEnding schema chain (resolve_metadata schema chain)
resolve_metadata-IsEnding_example = resolve_metadata-IsEnding schema chain
